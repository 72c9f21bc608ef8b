-- ===== src/Scanner/StartTls.antt =====
-- `negotiateStartTLS` and `negotiateMySQL` of pkg/ctscan/scanner.go, with `containsBytes` and
-- `indexByte`. A conversation is the list of answers that reading from the connection gives, in
-- order, and the list of what was written to it.
pub mod Turns
pub mod Search
use ctscan.Base.{
  ℕ, zero, suc, ◌+◌, ◌*◌, ◌/◌, ◌%◌, ◌^◌, Bool, true, false, not, ◌&&◌, ◌||◌, List, [], ◌∷◌, ◌++◌,
  Option, none, some, Outcome, ok, err, ◌>>=◌, ltb, leb, if◌then◌else◌, ◌==◌, nat_eq, text_eq,
  Bytes, codes, length, drop, take, get_elem?, replicate, ◌≡◌, refl,
}
use ctscan.Base.Text.{to_lower, to_upper, trim_space, has_prefix}

-- What reading gives: the bytes, or the text of an error with what was read before it.
pub data Answer : Type 0 where
  received : Bytes → Answer
  failed : Bytes → Bytes → Answer

pub data TlsError : Type 0 where
  unexpected_greeting command_failed : Bytes → TlsError
  io_error : Bytes → TlsError
  not_successful no_tls bad_greeting too_many_lines : TlsError
  unsupported : Bytes → TlsError

-- The answers that are left, and what was written.
pub record Talk : Type 0 where
  pub answers : List Answer
  pub sent : List Bytes

-- A part of the conversation, with the state it leaves.
abbrev pub Said : Type 0 → Type 0
Said A = Talk × Outcome TlsError A

unfoldable pub then_say : {A B : Type 0} → Said A → (A → Talk → Said B) → Said B
then_say (t, ok a) f = f a t
then_say (t, err e) f = (t, err e)

next_answer : List Answer → Answer × List Answer
next_answer [] = (failed [] (codes "EOF"), [])
next_answer (a ∷ answers) = (a, answers)

-- What a line is, and whether reading it failed: it is trimmed in both cases.
line_of : Answer → Bytes × Bool
line_of (received line) = (trim_space line, false)
line_of (failed line message) = (trim_space line, true)

-- readLine: the line, whether it failed, and the answers that are left
unfoldable pub read_line : List Answer → (Bytes × Bool) × List Answer
unfolding next_answer line_of
read_line answers = let n = next_answer answers in (line_of n.0, n.1)

-- The reply goes on: `len(line) >= 4 && line[3] == '-'`.
unfoldable pub goes_on : Bytes → Bool
goes_on line = elim (drop 3 line) [ [] ↦ false | c ∷ rest ↦ c == b'-' ]

-- readSMTPReply, by the rounds left; it fails too when these are spent.
unfoldable pub read_reply : ℕ → Bytes → List Answer → (Bytes × Bool) × List Answer
unfolding read_line goes_on
read_reply zero last answers = ((last, true), answers)
read_reply (suc rounds) last answers =
    let r = read_line answers in
    let later = read_reply rounds r.0.0 r.1 in
    if r.0.1 then r else if goes_on r.0.0 then later else r

-- Reading a line or a reply that must begin as `fits` says.
unfoldable pub expect :
    (List Answer → (Bytes × Bool) × List Answer)
    → (Bytes → Bool)
    → (Bytes → TlsError)
    → Talk
    → Said Bytes
expect read fits wrong t =
    let r = read t.answers in
    let t' : Talk = record t { answers = r.1 } in
    if r.0.1 || not (fits r.0.0) then (t', err (wrong r.0.0)) else (t', ok r.0.0)

reply : List Answer → (Bytes × Bool) × List Answer
unfolding read_reply
reply answers = read_reply 100 [] answers

begins : Bytes → Bytes → Bool
begins prefix line = has_prefix line prefix

begins_upper : Bytes → Bytes → Bool
begins_upper prefix line = has_prefix (to_upper line) prefix

-- `containsBytes`: the pattern stands at some place of the bytes.
unfoldable pub contains_bytes : Bytes → Bytes → Bool
contains_bytes [] pattern = pattern == []
contains_bytes (c ∷ bytes) pattern =
    let rest = contains_bytes bytes pattern in has_prefix (c ∷ bytes) pattern || rest

-- `indexByte`, without the -1 of a byte that is not there
index_byte : Bytes → ℕ → Option ℕ
index_byte [] value = none
index_byte (c ∷ bytes) value =
    let rest = index_byte bytes value in
    if c == value then some 0 else elim rest [ none ↦ none | some i ↦ some (suc i) ]

-- A byte of the data; one that is not there is 0.
byte_at : ℕ → Bytes → ℕ
byte_at offset bytes = elim (drop offset bytes) [ [] ↦ 0 | b ∷ rest ↦ b ]

-- binary.LittleEndian.Uint16
word_at : ℕ → Bytes → ℕ
unfolding byte_at
word_at offset bytes = byte_at offset bytes + byte_at (offset + 1) bytes * 256

-- The flags of the greeting; their halves stand at two places.
capabilities : ℕ → Bytes → ℕ
unfolding word_at
capabilities offset payload =
    word_at offset payload
    + (if ltb (offset + 7) (length payload) then word_at (offset + 5) payload * 2 ^ 16 else 0)

client_ssl : ℕ
client_ssl = 2048

abbrev pub ssl_request : Bytes
ssl_request = 32 ∷ 0 ∷ 0 ∷ 1 ∷ 5 ∷ 170 ∷ 0 ∷ 0 ∷ 0 ∷ 0 ∷ 0 ∷ 1 ∷ 33 ∷ replicate 23 0

-- The checks of a greeting that was read.
check_version : Bytes → Option ℕ → Outcome TlsError Bytes
unfolding capabilities client_ssl
check_version payload none = err bad_greeting
check_version payload (some z) =
    let offset = 1 + z + 1 + 4 + 8 + 1 in
    if ltb (length payload) (offset + 2)
    then err bad_greeting
    else if (capabilities offset payload / client_ssl) % 2 == 0
    then err no_tls
    else ok payload

pub check_greeting : Bytes → Outcome TlsError Bytes
unfolding check_version index_byte
check_greeting [] = err bad_greeting
check_greeting (c ∷ payload) =
    if c == 255 then err bad_greeting else check_version (c ∷ payload) (index_byte payload 0)

-- `length` of the greeting, by its header
greeting_length : Bytes → ℕ
unfolding byte_at
greeting_length header = byte_at 0 header + byte_at 1 header * 2 ^ 8 + byte_at 2 header * 2 ^ 16

pub check_length : Bytes → Outcome TlsError Bytes
unfolding greeting_length
check_length header =
    let n = greeting_length header in
    if ltb n 18 || ltb (2 ^ 20) n then err bad_greeting else ok header

abbrev pub postgres_request : Bytes
postgres_request = 0 ∷ 0 ∷ 0 ∷ 8 ∷ 4 ∷ 210 ∷ 22 ∷ 47 ∷ []

abbrev pub ldap_request : Bytes
ldap_request = 48 ∷ 29 ∷ 2 ∷ 1 ∷ 1 ∷ 119 ∷ 24 ∷ 128 ∷ 22 ∷ codes "1.3.6.1.4.1.1466.20037"

pub check_postgres : Bytes → Outcome TlsError Bytes
check_postgres [] = err not_successful
check_postgres (c ∷ rest) = if c == b'S' then ok (c ∷ rest) else err not_successful

pub check_ldap : Bytes → Outcome TlsError Bytes
unfolding contains_bytes
check_ldap response =
    if contains_bytes response (10 ∷ 1 ∷ 0 ∷ []) then ok response else err not_successful

checked : (Bytes → Outcome TlsError Bytes) → Answer → Outcome TlsError Bytes
checked check (failed part message) = err (io_error message)
checked check (received bytes) = check bytes

-- Reading bytes that must be as `check` says: `io.ReadFull` and `reader.Read`.
unfoldable pub receive : (Bytes → Outcome TlsError Bytes) → Talk → Said Bytes
unfolding next_answer checked
receive check t = let n = next_answer t.answers in (record t { answers = n.1 }, checked check n.0)

-- The destination may refuse a write, by what was written before.
module _ (refuses : List Bytes → Bytes → Option Bytes) where
  sent_or : Talk → Bytes → Option Bytes → Said Bytes
  sent_or t value (some e) = (t, err (io_error e))
  sent_or t value none = (record t { sent = t.sent ++ value ∷ [] }, ok value)

  unfoldable pub send : Bytes → Talk → Said Bytes
  unfolding sent_or
  send value t = sent_or t value (refuses t.sent value)

  -- A command and the line that answers it.
  unfoldable pub ask :
      Bytes → (List Answer → (Bytes × Bool) × List Answer) → (Bytes → Bool) → Talk → Said Bytes
  unfolding send expect then_say
  ask command read fits t = then_say (send command t) (λ a. expect read fits command_failed)

  unfoldable pub smtp : Talk → Said Bytes
  unfolding expect ask then_say reply begins
  smtp t = then_say (expect reply (begins (codes "220")) unexpected_greeting t) (λ a t₁.
      then_say (ask (codes "EHLO ctscan\r\n") reply (begins (codes "250")) t₁)
        (λ b. ask (codes "STARTTLS\r\n") reply (begins (codes "220"))))

  unfoldable pub imap : Talk → Said Bytes
  unfolding expect ask then_say read_line begins_upper
  imap t =
      then_say (expect read_line (begins_upper (codes "* OK")) unexpected_greeting t)
        (λ a. ask (codes "a001 STARTTLS\r\n") read_line (begins_upper (codes "A001 OK")))

  unfoldable pub pop3 : Talk → Said Bytes
  unfolding expect ask then_say read_line begins_upper
  pop3 t =
      then_say (expect read_line (begins_upper (codes "+OK")) unexpected_greeting t)
        (λ a. ask (codes "STLS\r\n") read_line (begins_upper (codes "+OK")))

  unfoldable pub ftp : Talk → Said Bytes
  unfolding expect ask then_say reply begins
  ftp t = then_say (expect reply (begins (codes "220")) unexpected_greeting t) (λ a.
      ask (codes "AUTH TLS\r\n") reply
        (λ line. begins (codes "234") line || begins (codes "334") line))

  unfoldable pub postgres : Talk → Said Bytes
  unfolding send receive then_say check_postgres
  postgres t = then_say (send postgres_request t) (λ a. receive check_postgres)

  unfoldable pub ldap : Talk → Said Bytes
  unfolding send receive then_say check_ldap
  ldap t = then_say (send ldap_request t) (λ a. receive check_ldap)

  unfoldable pub mysql : Talk → Said Bytes
  unfolding send receive then_say check_length check_greeting
  mysql t =
      then_say (receive check_length t)
        (λ a t₁. then_say (receive check_greeting t₁) (λ b. send ssl_request))

  unfoldable pub negotiate : Bytes → Talk → Said Bytes
  unfolding smtp imap pop3 ftp postgres ldap mysql
  negotiate protocol t =
      let p = to_lower protocol in
      if p == codes "smtp"
      then smtp t
      else if p == codes "imap"
      then imap t
      else if p == codes "pop3"
      then pop3 t
      else if p == codes "ftp"
      then ftp t
      else if p == codes "postgres" || p == codes "postgresql"
      then postgres t
      else if p == codes "ldap"
      then ldap t
      else if p == codes "mysql"
      then mysql t
      else (t, err (unsupported protocol))
