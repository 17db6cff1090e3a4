-- ===== src/Lib.antt =====
-- Silicon Valet, a self-hosted assistant for servers: the parts that decide what may run.
--
-- A chat message reaches an agent, whose tools hand shell commands to the risk engine
-- (silicon_valet/risk/engine.py). The engine asks the classifier (risk/classifier.py) for the tier
-- of the command, GREEN, YELLOW or RED, by the tables of regular expressions in risk/patterns.py, and
-- runs it at once, or asks the user through a callback, or refuses it.
--
-- Files, with the code that each models (paths under silicon_valet/):
--   Prelude      Python's str as a list of code points with the methods that the program calls,
--                integers, lists, Boolean tests.
--   Regex        Python's re, as far as the program's patterns use it: syntax trees and a
--                backtracking matcher. Regex/Meaning says what a match is without a search and
--                proves that the matcher decides it; Regex/Anchored treats patterns that begin
--                with ^ or with a given character.
--   Risk         risk/patterns.py (Patterns), risk/classifier.py (Classifier) and risk/engine.py
--                (Engine). Methods keep their names, without the leading underscore. Engine's
--                children treat permission, refusal (Gate), runs and backups.
--   Json         Python's json module as the program uses it: values, dumps and loads with integer
--                numbers, on one line or with an indent of two.
--   Api          api/openai_compat.py (Approval): the approval callback of the HTTP interface.
--   Server       server/protocol.py (Protocol), server/session.py (Session) and the handler of
--                server/ws_server.py, with the token tests of both servers (Auth).
--   Environment  environment.py; Config is config.py.
--   Orchestrator orchestrator/router.py (Router), orchestrator/planner.py with coder.py (Planner) and
--                orchestrator/handoff.py (Handoff).
--   Tools        tools/filesystem.py (Filesystem): the commands that the tools build and their
--                replies; tools/netdevice.py (Netdevice): the tiers of device commands, the reading
--                of banners, inventories and device strings, the show and config tools;
--                tools/kubernetes.py and tools/network.py (Kubernetes).
--   Dna          dna/models.py (Models) and dna/store.py with dna/schema.py (Tables, Store): the
--                tables, upserts, removals and the log of changes; Dependents is get_dependents;
--                dna/scanner.py (Scanner): the machine (Machine), the parsers of its answers (Plain,
--                Objects), the tables (Known) and scan_once (Update).
--   Memory       memory/procedural.py (Runbook): runbooks and the library of them.
--   Packs        packs/<name>/__init__.py, a module each: the runbooks that a pack seeds;
--                packs/loader.py (Loader): activation and seeding.
--
-- How the code is read:
--   Text is code points. White space is Unicode's, as in str.isspace. Letters for \w, \b, lower and
--   capitalize are the ASCII ones, so on texts of ASCII code points these are Python's.
--   The repetitions in the patterns are all of one character class, so the matcher recurs on the
--   text and needs no fuel. The digits of a number get one round more than the number itself. The
--   traversal of dependents gets one round for its start and one for each dependency, and is shown
--   to end within them.
--   The operating system is the parameter Host of Risk.Engine: a shell, a directory maker, a clock,
--   a file test and a copier over a world. The directory maker, the file test and the approval
--   callback, which is an argument as in the source, may raise. The result that execute returns is
--   the object in the log, so the backup path set on it is set in the log too.
--   A SQLite table is the list of its rows in the order of their row ids, and the vector index of
--   the runbooks is the list of the ids that it holds; its ranking and the ORDER BY of get_all are
--   parameters. The seeding tasks run one after the other, each to its end.
--   The upserts of the store follow one scheme, which Dna.Tables states once; each table gives the
--   match, the reported changes and the merged row. An exception for a foreign key is none.
--   The netmiko library is the parameter Netmiko of Tools.Netdevice: a call for a connection, a list
--   of commands and a mode, over a world that it may change. A key that a reply lacks reads as none
--   or false.
--   JSON values are read with the text's length as fuel, and numbers are integers: a fraction or an
--   exponent is not read.
--   The answers of the commands that the detection and a scan run are a function of the command,
--   fixed while they run, so the order of concurrent tasks does not matter. Numbers in them are not
--   negative, and what the answers hold as texts are texts; another JSON value there is a fault.
--   The agents of a session are functions of their input, and a model's answer is the list of its
--   lines. A planner is given by whether the agent library can be imported, the system prompt that it
--   builds from a message, and the replies of the assistant and of the model. The file system of the
--   briefs, with the join of paths, is the parameter Disk of Orchestrator.Handoff.
--   Durations are what the host measured. Log messages are left out.
--
-- Not modelled: the questions to the user over a connection, the language models, the transport of
-- the servers, the terminal client and its display, the semantic memory of episodes, the remaining
-- tools, the start-up and the installation scripts, which are input and output around this core; and
-- brief_to_prompt and needs_handoff of the handoff, of which the one calls a method that is not there
-- and the other compares floats.
pub mod Api
pub mod Config
pub mod Dna
pub mod Environment
pub mod Json
pub mod Memory
pub mod Orchestrator
pub mod Packs
pub mod Prelude
pub mod Regex
pub mod Risk
pub mod Server
pub mod Tools
