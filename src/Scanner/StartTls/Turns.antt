-- ===== src/Scanner/StartTls/Turns.antt =====
-- What a STARTTLS conversation says and must hear, turn by turn, against what RFC 3207, 2595, 4217,
-- 4511, and the protocols of PostgreSQL and MySQL ask for.
pub mod Reading
pub mod Laws
use std.Path.{fun_ext}
use ctscan.Base.{
  ℕ, zero, suc, Bool, true, false, not, ◌||◌, List, [], ◌∷◌, ◌++◌, Option, none, some, Outcome, ok,
  err, if◌then◌else◌, ◌==◌, nat_eq, text_eq, Bytes, codes, ◌≡◌, ◌⊎◌, inl, inr, refl, ap, ◌∙◌, arith,
  Bool-cases, Option-cases, sym, append_assoc,
}
use ctscan.Base.Text.{to_lower, to_upper, trim_space, has_prefix, strip_prefix}
use ctscan.Scanner.StartTls.{
  Answer, received, failed, TlsError, Talk, Said, then_say, next_answer, line_of, read_line,
  goes_on, read_reply, reply, expect, begins, begins_upper, contains_bytes, checked, receive,
  check_postgres, check_ldap, check_length, check_greeting, ssl_request, postgres_request,
  ldap_request, sent_or, send, ask, smtp, imap, pop3, ftp, postgres, ldap, mysql, negotiate,
}

-- The client says a message, or it hears a line, a reply of some lines of which the last counts, or
-- bytes, which pass a test.
pub data Turn : Type 0 where
  says : Bytes → Turn
  hears_line hears_reply hears_bytes : (Bytes → Bool) → Turn

-- At most so many lines are read, each but the last going on, and the last one, without the white
-- space around it, passes the test.
abbrev pub HeardReply : ℕ → (Bytes → Bool) → List Answer → List Answer → Type 0
HeardReply zero fits before after = ⊥
HeardReply (suc n) fits before after =
    (line : Bytes) × (more : List Answer) × (before ≡ received line ∷ more)
    × (((goes_on (trim_space line) ≡ false) × (fits (trim_space line) ≡ true) × (more ≡ after))
        ⊎ ((goes_on (trim_space line) ≡ true) × HeardReply n fits more after))

abbrev pub HeardLine : (Bytes → Bool) → List Answer → List Answer → Type 0
HeardLine fits before after =
    (line : Bytes) × (before ≡ received line ∷ after) × (fits (trim_space line) ≡ true)

abbrev pub HeardBytes : (Bytes → Bool) → List Answer → List Answer → Type 0
HeardBytes fits before after =
    (bytes : Bytes) × (before ≡ received bytes ∷ after) × (fits bytes ≡ true)

abbrev pub went_well : Outcome TlsError Bytes → Bool
went_well (ok b) = true
went_well (err e) = false

-- The test of a check of the source.
abbrev pub passes : (Bytes → Outcome TlsError Bytes) → Bytes → Bool
passes check bytes = went_well (check bytes)

-- The turns of the protocols.
abbrev pub starts : Bytes → Bytes → Bool
starts code line = has_prefix line code

abbrev pub starts_upper : Bytes → Bytes → Bool
starts_upper code line = has_prefix (to_upper line) code

abbrev pub smtp_turns : List Turn
smtp_turns =
    hears_reply (starts (codes "220"))
    ∷ says (codes "EHLO ctscan\r\n")
    ∷ hears_reply (starts (codes "250"))
    ∷ says (codes "STARTTLS\r\n")
    ∷ hears_reply (starts (codes "220"))
    ∷ []

abbrev pub imap_turns : List Turn
imap_turns =
    hears_line (starts_upper (codes "* OK"))
    ∷ says (codes "a001 STARTTLS\r\n")
    ∷ hears_line (starts_upper (codes "A001 OK"))
    ∷ []

abbrev pub pop3_turns : List Turn
pop3_turns =
    hears_line (starts_upper (codes "+OK"))
    ∷ says (codes "STLS\r\n")
    ∷ hears_line (starts_upper (codes "+OK"))
    ∷ []

abbrev pub ftp_turns : List Turn
ftp_turns =
    hears_reply (starts (codes "220"))
    ∷ says (codes "AUTH TLS\r\n")
    ∷ hears_reply (λ line. starts (codes "234") line || starts (codes "334") line)
    ∷ []

abbrev pub postgres_turns : List Turn
postgres_turns =
    says (0 ∷ 0 ∷ 0 ∷ 8 ∷ 4 ∷ 210 ∷ 22 ∷ 47 ∷ []) ∷ hears_bytes (starts (codes "S")) ∷ []

abbrev pub ldap_turns : List Turn
ldap_turns = says ldap_request ∷ hears_bytes (λ r. contains_bytes r (10 ∷ 1 ∷ 0 ∷ [])) ∷ []

abbrev pub mysql_turns : List Turn
mysql_turns =
    hears_bytes (passes check_length) ∷ hears_bytes (passes check_greeting) ∷ says ssl_request ∷ []

abbrev pub turns_of : Bytes → Option (List Turn)
turns_of p =
    if p == codes "smtp"
    then some smtp_turns
    else if p == codes "imap"
    then some imap_turns
    else if p == codes "pop3"
    then some pop3_turns
    else if p == codes "ftp"
    then some ftp_turns
    else if p == codes "postgres" || p == codes "postgresql"
    then some postgres_turns
    else if p == codes "ldap"
    then some ldap_turns
    else if p == codes "mysql"
    then some mysql_turns
    else none

module _ (refuses : List Bytes → Bytes → Option Bytes) where
  -- The turns are taken, from the first state of the conversation to the second.
  pub Taken : List Turn → Talk → Talk → Type 0
  Taken [] t u = t ≡ u
  Taken (says m ∷ turns) t u =
      (refuses t.sent m ≡ none) × Taken turns (record t { sent = t.sent ++ m ∷ [] }) u
  Taken (hears_line fits ∷ turns) t u =
      (l : List Answer) × HeardLine fits t.answers l × Taken turns (record t { answers = l }) u
  Taken (hears_reply fits ∷ turns) t u =
      (l : List Answer) × HeardReply 100 fits t.answers l × Taken turns (record t { answers = l }) u
  Taken (hears_bytes fits ∷ turns) t u =
      (l : List Answer) × HeardBytes fits t.answers l × Taken turns (record t { answers = l }) u

  -- The turn cannot be taken.
  pub IsRefused : Turn → Talk → Type 0
  IsRefused (says m) t = (e : Bytes) × (refuses t.sent m ≡ some e)
  IsRefused (hears_line fits) t = (l : List Answer) → HeardLine fits t.answers l → ⊥
  IsRefused (hears_reply fits) t = (l : List Answer) → HeardReply 100 fits t.answers l → ⊥
  IsRefused (hears_bytes fits) t = (l : List Answer) → HeardBytes fits t.answers l → ⊥

  -- A conversation that succeeds has taken all the turns, and one that fails has taken those before
  -- a turn that could not be taken, and has said nothing more.
  pub Obeys : List Turn → Talk → Said Bytes → Type 0
  Obeys turns t (u, ok a) = Taken turns t u
  Obeys turns t (u, err e) =
      (done : List Turn) × (turn : Turn) × (rest : List Turn) × (v : Talk) × (turns
        ≡ done ++ turn ∷ rest)
      × Taken done t v
      × IsRefused turn v
      × (u.sent ≡ v.sent)

  -- What is asked of a negotiation: that it obeys the turns of its protocol, or does nothing for one
  -- that has none.
  pub IsNegotiated : Option (List Turn) → Bytes → Talk → Said Bytes → Type 0
  IsNegotiated (some turns) protocol t x = Obeys turns t x
  IsNegotiated none protocol t x = x ≡ (t, err (TlsError.unsupported protocol))
