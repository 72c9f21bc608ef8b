-- ===== src/Snapshot/Reading.antt =====
-- `Read` and `Identity` of internal/snapshot/diff.go. The lines are what `bufio.Scanner` gives, with
-- the error it ends on, if any; decoding a line is a parameter.
pub mod Laws
pub mod Identity
use ctscan.Base.{
  ℕ, zero, suc, Bool, true, false, List, [], ◌∷◌, ◌++◌, Option, none, some, if◌then◌else◌, ◌==◌,
  text_eq, Bytes, codes, Outcome, ok, err, ◌>>=◌,
}
use ctscan.Base.Decimal.{decimal}
use ctscan.Base.Maps.{put}
use ctscan.Base.Text.{trim_space}
use ctscan.Snapshot.Changes.{Snapshot}
use ctscan.Types.{Result}

-- fmt.Sprintf("%s|%s|%d|%s", result.Host, result.IP, result.Port, result.SNI)
unfoldable pub identity : Result → Bytes
unfolding decimal
identity result =
    result.host ++ (b'|' ∷ (result.ip ++ (b'|' ∷ (decimal result.port ++ (b'|' ∷ result.sni)))))

-- A line that does not decode, by its number, or the error of the reader.
pub data ReadError (E : Type 0) : Type 0 where
  decode_line : ℕ → E → ReadError E
  reading : E → ReadError E

module _ {E : Type 0} (decode : Bytes → Outcome E Result) where
  decoded : ℕ → Snapshot → Outcome E Result → Outcome (ReadError E) Snapshot
  unfolding identity put
  decoded line results (err e) = err (decode_line line e)
  decoded line results (ok result) = ok (put results (identity result) result)

  -- One round of the loop, on the line of the number `line`.
  read_line : ℕ → Bytes → Snapshot → Outcome (ReadError E) Snapshot
  unfolding trim_space decoded
  read_line line text results =
      if trim_space text == [] then ok results else decoded line results (decode text)

  read_lines : List Bytes → ℕ → Snapshot → Outcome (ReadError E) Snapshot
  unfolding read_line
  read_lines [] line results = ok results
  read_lines (text ∷ lines) line results =
      read_line (suc line) text results >>= read_lines lines (suc line)

  ended : Option E → Snapshot → Outcome (ReadError E) Snapshot
  ended none results = ok results
  ended (some e) results = err (reading e)

  unfoldable pub read : List Bytes → Option E → Outcome (ReadError E) Snapshot
  unfolding read_lines ended
  read lines scan_err = read_lines lines 0 [] >>= ended scan_err
