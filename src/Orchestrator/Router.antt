-- ===== src/Orchestrator/Router.antt =====
-- orchestrator/router.py: which agent gets a message, and whether it is to think at length.
use silicon_valet.Prelude.{is_space, Bool, List, [], ◌∷◌, Text, if◌then◌else◌}
use silicon_valet.Regex.{
  Regex, search_in, many, word_edge, ◌▸◌, opt, word, any_char, lit_ci, names_ci, sps, sps?, some_of,
}
use silicon_valet.Risk.Classifier.{matches_any}

unfoldable pub code_patterns : List Regex
code_patterns =
    (word_edge ▸ lit_ci "script" ▸ word_edge)
    ∷ (word_edge ▸ lit_ci "code" ▸ word_edge)
    ∷ (word_edge ▸ lit_ci "program" ▸ word_edge)
    ∷ (word_edge ▸ lit_ci "function" ▸ word_edge)
    ∷ (word_edge
        ▸ lit_ci "write"
        ▸ sps
        ▸ names_ci "a" ("me" ∷ "the" ∷ [])
        ▸ sps
        ▸ some_of word
        ▸ sps?
        ▸ names_ci "script" ("program" ∷ "code" ∷ []))
    ∷ (word_edge ▸ lit_ci "parse" ▸ word_edge)
    ∷ (word_edge ▸ lit_ci "regex" ▸ word_edge)
    ∷ (word_edge ▸ lit_ci "json" ▸ word_edge)
    ∷ (word_edge ▸ lit_ci "yaml" ▸ word_edge)
    ∷ (word_edge
        ▸ lit_ci "generate"
        ▸ sps
        ▸ opt (names_ci "a" ("the" ∷ []))
        ▸ sps?
        ▸ lit_ci "config")
    ∷ (word_edge
        ▸ lit_ci "analyze"
        ▸ sps
        ▸ opt (names_ci "this" ("the" ∷ []))
        ▸ sps?
        ▸ names_ci "code" ("script" ∷ "file" ∷ []))
    ∷ (word_edge ▸ lit_ci "refactor" ▸ word_edge)
    ∷ (word_edge
        ▸ lit_ci "debug"
        ▸ sps
        ▸ opt (names_ci "this" ("the" ∷ []))
        ▸ sps?
        ▸ names_ci "code" ("script" ∷ []))
    ∷ (word_edge ▸ lit_ci "python" ▸ word_edge)
    ∷ (word_edge ▸ lit_ci "bash" ▸ sps ▸ lit_ci "script" ▸ word_edge)
    ∷ (word_edge ▸ lit_ci "shell" ▸ sps ▸ lit_ci "script" ▸ word_edge)
    ∷ []

unfoldable pub complex_patterns : List Regex
complex_patterns =
    (word_edge
      ▸ lit_ci "why"
      ▸ sps
      ▸ names_ci "is" ("are" ∷ "does" ∷ "did" ∷ "do" ∷ [])
      ▸ word_edge)
    ∷ (word_edge ▸ lit_ci "diagnose" ▸ word_edge)
    ∷ (word_edge ▸ lit_ci "troubleshoot" ▸ word_edge)
    ∷ (word_edge ▸ lit_ci "investigate" ▸ word_edge)
    ∷ (word_edge ▸ lit_ci "root" ▸ sps ▸ lit_ci "cause" ▸ word_edge)
    ∷ (word_edge ▸ lit_ci "intermittent" ▸ word_edge)
    ∷ (word_edge
        ▸ lit_ci "keep"
        ▸ opt (lit_ci "s")
        ▸ sps
        ▸ names_ci "crash" ("fail" ∷ "restart" ∷ "dying" ∷ []))
    ∷ (word_edge
        ▸ lit_ci "slow"
        ▸ word_edge
        ▸ many any_char
        ▸ word_edge
        ▸ names_ci "response" ("latency" ∷ "timeout" ∷ [])
        ▸ word_edge)
    ∷ (word_edge ▸ lit_ci "can't" ▸ sps ▸ names_ci "connect" ("reach" ∷ "access" ∷ []) ▸ word_edge)
    ∷ (word_edge
        ▸ lit_ci "not"
        ▸ sps
        ▸ names_ci "work" ("respond" ∷ "start" ∷ "running" ∷ [])
        ▸ word_edge)
    ∷ []

pub data AgentType : Type 0 where
  planner : AgentType
  coder : AgentType

unfoldable pub route : Text → AgentType
unfolding matches_any code_patterns
route message = if matches_any code_patterns message then coder else planner

unfoldable pub needs_thinking : Text → Bool
unfolding matches_any complex_patterns
needs_thinking message = matches_any complex_patterns message

-- For tests and examples: what a route computes with.
unfoldable pub opens_route : Unit {0}
unfolding route needs_thinking code_patterns complex_patterns matches_any search_in is_space
opens_route = tt
