-- ===== src/Output/Writer.antt =====
-- `New` and `Writer.Write` of internal/output/output.go. What is written is the list of lines; the
-- destination may refuse a line, and encoding a result as JSON is a parameter.
pub mod Laws
use ctscan.Base.{
  Bool, true, false, ◌&&◌, ◌||◌, not, List, [], ◌∷◌, ◌++◌, Option, none, some, if◌then◌else◌, ◌==◌,
  contains, text_eq, Bytes, codes, Outcome, ok, err, ◌>>=◌,
}
use ctscan.Input.Names.{Idna}
use ctscan.Output.Display.{format_text}
use ctscan.Output.Names.{certificate_names}
use ctscan.Types.{Result}

pub data Format : Type 0 where
  text jsonl dns : Format

pub record Config : Type 0 where
  pub format : Format
  pub include_failures : Bool

-- The format that `New` makes of a name, or none for a name it does not know.
unfoldable pub format_of : Bytes → Option Format
format_of name =
    if name == [] || name == codes "text"
    then some text
    else if name == codes "json" || name == codes "jsonl"
    then some jsonl
    else if name == codes "dns"
    then some dns
    else none

pub record Writer : Type 0 where
  pub config : Config
  pub lines : List Bytes
  pub seen_dns : List Bytes

unfoldable pub new_writer : Bytes → Bool → Option Writer
unfolding format_of
new_writer name include_failures = elim (format_of name) [
  | none ↦ none
  | some format ↦ some record {
    config = record { format = format; include_failures = include_failures };
    lines = [];
    seen_dns = [];
  }
]

module _ {E : Type 0} (idna : Idna) (encode : Result → Outcome E Bytes)
    (refuses : List Bytes → Bytes → Option E) where
  printed : Writer → Bytes → Option E → Writer × Option E
  printed w line (some e) = (w, some e)
  printed w line none = (record w { lines = w.lines ++ line ∷ [] }, none)

  -- Fprintln on the buffer
  print_line : Writer → Bytes → Writer × Option E
  unfolding printed
  print_line w line = printed w line (refuses w.lines line)

  -- The part of a round of the loop over names that follows `seenDNS[name] = struct{}{}`.
  print_name : Writer → Bytes → Writer × Option E
  unfolding print_line
  print_name w name = print_line (record w { seen_dns = w.seen_dns ++ name ∷ [] }) name

  -- One round of the loop over names.
  meet_name : Writer → Bytes → Writer × Option E
  unfolding print_name
  meet_name w name = if contains w.seen_dns name then (w, none) else print_name w name

  after_name : Writer × Option E → (Writer → Writer × Option E) → Writer × Option E
  after_name (w, some e) rest = (w, some e)
  after_name (w, none) rest = rest w

  print_names : List Bytes → Writer → Writer × Option E
  unfolding meet_name after_name
  print_names [] w = (w, none)
  print_names (name ∷ names) w = after_name (meet_name w name) (print_names names)

  print_encoded : Writer → Outcome E Bytes → Writer × Option E
  unfolding print_line
  print_encoded w (err e) = (w, some e)
  print_encoded w (ok line) = print_line w line

  print_as : Format → Writer → Result → Writer × Option E
  unfolding print_line print_encoded print_names certificate_names format_text
  print_as jsonl w result = print_encoded w (encode result)
  print_as dns w result = print_names (certificate_names idna result) w
  print_as text w result = print_line w (format_text result)

  unfoldable pub write : Writer → Result → Writer × Option E
  unfolding print_as
  write w result =
      if not (result.status == codes "success") && not w.config.include_failures
      then (w, none)
      else print_as w.config.format w result

  -- The calls of `Write` for a list of results, up to the first error.
  unfoldable pub write_each : List Result → Writer → Writer × Option E
  unfolding write after_name
  write_each [] w = (w, none)
  write_each (result ∷ results) w = after_name (write w result) (write_each results)
