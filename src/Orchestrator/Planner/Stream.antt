-- ===== src/Orchestrator/Planner/Stream.antt =====
-- What the streaming of an answer passes on and holds back.
use silicon_valet.Prelude.{
  ◌≡◌, ◌⊎◌, refl, inl, inr, true, false, not, ◌&&◌, List, [], ◌∷◌, ◌++◌, Text, if_cases, contains,
  nonempty, arith, if◌then◌else◌, All,
}
use silicon_valet.Orchestrator.Planner.{
  Line, blank, done, token, no_text, broken, open_tag, close_tag, released, feed, stream, line_of,
  coder_stream, remove_blocks,
}

-- What is held back is nothing, or a text with a block that is opened and not closed.
abbrev pub Held : Text → Type 0
Held buffer =
    (buffer ≡ []) ⊎ (contains buffer open_tag ≡ true) × (contains buffer close_tag ≡ false)

released-Held : (b : Text) → Held (released b).1
unfolding released
released-Held [] = inl refl
released-Held (c ∷ cs) = inl refl

-- Whatever is fed, the new buffer is empty or holds an open block.
feed-Held : (buffer piece : Text) → Held (feed buffer piece).1
unfolding feed
feed-Held buffer piece =
    let held = buffer ++ piece in
    if_cases (λ (r : List Text × Text). Held r.1)
      (contains held open_tag && not (contains held close_tag)) ([], held)
      (released (if contains held close_tag then remove_blocks held else held))
      (λ h. inr (ground arith))
      (λ h. released-Held (if contains held close_tag then remove_blocks held else held))

-- The piece holds neither tag.
abbrev pub Plain : Text → Type 0
Plain t = (contains t open_tag ≡ false) × (contains t close_tag ≡ false)

feed-Plain : (t : Text) → Plain t → feed [] t ≡ (if nonempty t then (t ∷ [], []) else ([], []))
unfolding feed released
feed-Plain [] p = refl
feed-Plain (c ∷ cs) (p, q) = rw (feed, p, q) refl

-- A piece of text in the line is plain, and a content is a text.
abbrev pub PlainLine : Line → Type 0
PlainLine blank = Unit
PlainLine done = Unit
PlainLine (token t) = Plain t
PlainLine no_text = ⊥
PlainLine broken = Unit

stream_step :
    (report l : Text) (ls : List Text) (k : Line)
    → line_of l ≡ k
    → PlainLine k
    → stream report [] ls ≡ coder_stream report ls
    → stream report [] (l ∷ ls) ≡ coder_stream report (l ∷ ls)
unfolding stream coder_stream
stream_step report l ls blank h p ih = rw (stream, coder_stream, h) ih
stream_step report l ls done h p ih = rw (stream, coder_stream, h) refl
stream_step report l ls (token []) h p ih = rw (stream, coder_stream, h) ih
stream_step report l ls (token (c ∷ cs)) h p ih =
    rw (stream, coder_stream, h, feed-Plain (c ∷ cs) p, ih) refl
stream_step report l ls no_text h p ih = elim p [ ]
stream_step report l ls broken h p ih = rw (stream, coder_stream, h) refl

-- Where every content in the answer is a text without a tag, the planner passes on what the coder
-- would: the pieces that are not empty, one by one, up to the end or to the first fault.
pub stream-coder_stream :
    (report : Text) (ls : List Text)
    → All (λ l. PlainLine (line_of l)) ls
    → stream report [] ls ≡ coder_stream report ls
unfolding stream coder_stream
stream-coder_stream report [] p = refl
stream-coder_stream report (l ∷ ls) (p, ps) =
    stream_step report l ls (line_of l) refl p (stream-coder_stream report ls ps)
