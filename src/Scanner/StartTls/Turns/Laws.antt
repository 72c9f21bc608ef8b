-- ===== src/Scanner/StartTls/Turns/Laws.antt =====
-- Negotiations obey the turns of their protocols.
use ctscan.Base.{
  Bool, true, false, ◌||◌, List, [], ◌∷◌, ◌++◌, Option, none, some, Outcome, ok, err, if◌then◌else◌,
  nat_eq, text_eq, Bytes, codes, ◌≡◌, inl, inr, refl, ap, ◌∙◌, Option-cases, sym, append_assoc,
}
use ctscan.Base.Text.{to_lower}
use ctscan.Scanner.StartTls.{
  Answer, received, failed, TlsError, Talk, Said, then_say, next_answer, read_line, reply, expect,
  begins, begins_upper, checked, receive, check_postgres, check_ldap, check_length, check_greeting,
  ssl_request, postgres_request, ldap_request, sent_or, send, ask, smtp, imap, pop3, ftp, postgres,
  ldap, mysql, negotiate,
}
use ctscan.Scanner.StartTls.Turns.{
  Turn, says, hears_line, hears_reply, hears_bytes, passes, smtp_turns, imap_turns, pop3_turns,
  ftp_turns, postgres_turns, ldap_turns, mysql_turns, turns_of, Taken, IsRefused, Obeys,
  IsNegotiated,
}
use ctscan.Scanner.StartTls.Turns.Reading.{
  read_line-Reads, read_reply-Reads, same_answer, postgres_test, ldap_test,
}

module _ (refuses : List Bytes → Bytes → Option Bytes) where
  Taken-append :
      (ms ns : List Turn) (t u v : Talk)
      → Taken refuses ms t u
      → Taken refuses ns u v
      → Taken refuses (ms ++ ns) t v
  unfolding Taken
  Taken-append [] ns t u v e h = rw e h
  Taken-append (says m ∷ ms) ns t u v (allowed, h) k = (allowed, Taken-append ms ns _ u v h k)
  Taken-append (hears_line fits ∷ ms) ns t u v (l, a, h) k = (l, a, Taken-append ms ns _ u v h k)
  Taken-append (hears_reply fits ∷ ms) ns t u v (l, a, h) k = (l, a, Taken-append ms ns _ u v h k)
  Taken-append (hears_bytes fits ∷ ms) ns t u v (l, a, h) k = (l, a, Taken-append ms ns _ u v h k)

  Obeys-after :
      (ms ns : List Turn) (t u : Talk) (x : Said Bytes)
      → Taken refuses ms t u
      → Obeys refuses ns u x
      → Obeys refuses (ms ++ ns) t x
  unfolding Obeys
  Obeys-after ms ns t u (v, ok a) h k = Taken-append ms ns t u v h k
  Obeys-after ms ns t u (v, err e) h (done, turn, rest, w, split, taken, refused, same) = (
    ms ++ done,
    turn,
    rest,
    w,
    ap (λ l. ms ++ l) split ∙ sym (append_assoc ms done (turn ∷ rest)),
    Taken-append ms done t u w h taken,
    refused,
    same,
  )

  then_say-Obeys :
      (ms ns : List Turn) (t : Talk) (m : Said Bytes) (f : Bytes → Talk → Said Bytes)
      → Obeys refuses ms t m
      → ((a : Bytes) (u : Talk) → Obeys refuses ns u (f a u))
      → Obeys refuses (ms ++ ns) t (then_say m f)
  unfolding then_say Obeys
  then_say-Obeys ms ns t (u, ok a) f h next = Obeys-after ms ns t u (f a u) h (next a u)
  then_say-Obeys ms ns t (u, err e) f (done, turn, rest, v, split, taken, refused, same) next = (
    done,
    turn,
    rest ++ ns,
    v,
    ap (λ l. l ++ ns) split ∙ append_assoc done (turn ∷ rest) ns,
    taken,
    refused,
    same,
  )

  send-Obeys : (m : Bytes) (t : Talk) → Obeys refuses (says m ∷ []) t (send refuses m t)
  unfolding send sent_or Obeys Taken IsRefused
  send-Obeys m t = elim (Option-cases (refuses t.sent m)) [
    | inl e ↦ rw e (e, refl)
    | inr (x, e) ↦ rw e ([], says m, [], t, refl, refl, (x, e), refl)
  ]

  line-Obeys :
      (fits : Bytes → Bool) (wrong : Bytes → TlsError) (t : Talk)
      → Obeys refuses (hears_line fits ∷ []) t (expect read_line fits wrong t)
  unfolding expect Obeys Taken IsRefused
  line-Obeys fits wrong t = elim (read_line-Reads fits t.answers) [
    | inl (good, heard) ↦ rw good (_, heard, refl)
    | inr (bad, unheard) ↦ rw bad ([], hears_line fits, [], t, refl, refl, unheard, refl)
  ]

  reply-Obeys :
      (fits : Bytes → Bool) (wrong : Bytes → TlsError) (t : Talk)
      → Obeys refuses (hears_reply fits ∷ []) t (expect reply fits wrong t)
  unfolding expect reply Obeys Taken IsRefused
  reply-Obeys fits wrong t = elim (read_reply-Reads 100 [] fits t.answers) [
    | inl (good, heard) ↦ rw good (_, heard, refl)
    | inr (bad, unheard) ↦ rw bad ([], hears_reply fits, [], t, refl, refl, unheard, refl)
  ]

  bytes-Obeys :
      (check : Bytes → Outcome TlsError Bytes) (bytes : Bytes) (more : List Answer)
      (sent : List Bytes) (o : Outcome TlsError Bytes)
      → check bytes ≡ o
      → Obeys refuses
          (hears_bytes (passes check) ∷ [])
          (record { answers = received bytes ∷ more; sent = sent })
          (record { answers = more; sent = sent }, o)
  unfolding Obeys Taken IsRefused
  bytes-Obeys check bytes more sent (ok b) e = (more, (bytes, refl, rw e refl), refl)
  bytes-Obeys check bytes more sent (err x) e = (
    [],
    hears_bytes (passes check),
    [],
    _,
    refl,
    refl,
    λ l (bytes', same, good).
        let (same_bytes, rest) = same_answer bytes bytes' more l same in
        cc (rw (← same_bytes, e) at good),
    refl,
  )

  receive-Obeys :
      (check : Bytes → Outcome TlsError Bytes) (answers : List Answer) (sent : List Bytes)
      → Obeys refuses
          (hears_bytes (passes check) ∷ [])
          (record { answers = answers; sent = sent })
          (receive check (record { answers = answers; sent = sent }))
  unfolding receive next_answer checked
  receive-Obeys check [] sent =
      unfold Obeys in
      unfold Taken in
      unfold IsRefused in
      ([], hears_bytes (passes check), [], _, refl, refl, λ l (b, same, good). cc, refl)
  receive-Obeys check (failed part message ∷ answers) sent =
      unfold Obeys in
      unfold Taken in
      unfold IsRefused in
      ([], hears_bytes (passes check), [], _, refl, refl, λ l (b, same, good). cc, refl)
  receive-Obeys check (received bytes ∷ answers) sent =
      bytes-Obeys check bytes answers sent (check bytes) refl

  ask_line-Obeys :
      (m : Bytes) (fits : Bytes → Bool) (t : Talk)
      → Obeys refuses (says m ∷ hears_line fits ∷ []) t (ask refuses m read_line fits t)
  unfolding ask
  ask_line-Obeys m fits t =
      then_say-Obeys (says m ∷ []) (hears_line fits ∷ []) t _ _ (send-Obeys m t)
        (λ a. line-Obeys fits TlsError.command_failed)

  ask_reply-Obeys :
      (m : Bytes) (fits : Bytes → Bool) (t : Talk)
      → Obeys refuses (says m ∷ hears_reply fits ∷ []) t (ask refuses m reply fits t)
  unfolding ask
  ask_reply-Obeys m fits t =
      then_say-Obeys (says m ∷ []) (hears_reply fits ∷ []) t _ _ (send-Obeys m t)
        (λ a. reply-Obeys fits TlsError.command_failed)

  smtp-Obeys : (t : Talk) → Obeys refuses smtp_turns t (smtp refuses t)
  unfolding smtp begins
  smtp-Obeys t =
      then_say-Obeys (hears_reply (begins (codes "220")) ∷ []) _ t _ _
        (reply-Obeys (begins (codes "220")) TlsError.unexpected_greeting t)
        (λ a u.
          then_say-Obeys (says (codes "EHLO ctscan\r\n") ∷ hears_reply (begins (codes "250")) ∷ [])
            _ u _ _ (ask_reply-Obeys (codes "EHLO ctscan\r\n") (begins (codes "250")) u)
            (λ b. ask_reply-Obeys (codes "STARTTLS\r\n") (begins (codes "220"))))

  imap-Obeys : (t : Talk) → Obeys refuses imap_turns t (imap refuses t)
  unfolding imap begins_upper
  imap-Obeys t =
      then_say-Obeys (hears_line (begins_upper (codes "* OK")) ∷ []) _ t _ _
        (line-Obeys (begins_upper (codes "* OK")) TlsError.unexpected_greeting t)
        (λ a. ask_line-Obeys (codes "a001 STARTTLS\r\n") (begins_upper (codes "A001 OK")))

  pop3-Obeys : (t : Talk) → Obeys refuses pop3_turns t (pop3 refuses t)
  unfolding pop3 begins_upper
  pop3-Obeys t =
      then_say-Obeys (hears_line (begins_upper (codes "+OK")) ∷ []) _ t _ _
        (line-Obeys (begins_upper (codes "+OK")) TlsError.unexpected_greeting t)
        (λ a. ask_line-Obeys (codes "STLS\r\n") (begins_upper (codes "+OK")))

  ftp-Obeys : (t : Talk) → Obeys refuses ftp_turns t (ftp refuses t)
  unfolding ftp begins
  ftp-Obeys t =
      then_say-Obeys (hears_reply (begins (codes "220")) ∷ []) _ t _ _
        (reply-Obeys (begins (codes "220")) TlsError.unexpected_greeting t)
        (λ a.
          ask_reply-Obeys (codes "AUTH TLS\r\n")
            (λ line. begins (codes "234") line || begins (codes "334") line))

  postgres-Obeys : (t : Talk) → Obeys refuses postgres_turns t (postgres refuses t)
  unfolding postgres
  postgres-Obeys t = rw (← postgres_test) (
      then_say-Obeys (says postgres_request ∷ []) _ t _ _ (send-Obeys postgres_request t)
        (λ a u. receive-Obeys check_postgres u.answers u.sent))

  ldap-Obeys : (t : Talk) → Obeys refuses ldap_turns t (ldap refuses t)
  unfolding ldap
  ldap-Obeys t = rw (← ldap_test) (
      then_say-Obeys (says ldap_request ∷ []) _ t _ _ (send-Obeys ldap_request t)
        (λ a u. receive-Obeys check_ldap u.answers u.sent))

  mysql-Obeys : (t : Talk) → Obeys refuses mysql_turns t (mysql refuses t)
  unfolding mysql
  mysql-Obeys t =
      then_say-Obeys (hears_bytes (passes check_length) ∷ []) _ t _ _
        (receive-Obeys check_length t.answers t.sent)
        (λ a u.
          then_say-Obeys (hears_bytes (passes check_greeting) ∷ []) _ u _ _
            (receive-Obeys check_greeting u.answers u.sent) (λ b. send-Obeys ssl_request))

  when :
      (b : Bool) (turns : List Turn) (ns : Option (List Turn)) (p : Bytes) (t : Talk)
      (m n : Said Bytes)
      → Obeys refuses turns t m
      → IsNegotiated refuses ns p t n
      → IsNegotiated refuses (if b then some turns else ns) p t (if b then m else n)
  unfolding IsNegotiated
  when true turns ns p t m n h k = h
  when false turns ns p t m n h k = k

  unknown : (p : Bytes) (t : Talk) → IsNegotiated refuses none p t (t, err (TlsError.unsupported p))
  unfolding IsNegotiated
  unknown p t = refl

  -- A negotiation takes the turns of its protocol in their order: each message is said only when all
  -- that must be heard before it was heard. It succeeds only when all turns are taken, and fails only
  -- at one that cannot be taken, saying nothing more; a protocol that is not known is refused at once.
  pub negotiate-Obeys :
      (protocol : Bytes) (t : Talk)
      → IsNegotiated refuses
          (turns_of (to_lower protocol))
          protocol
          t
          (negotiate refuses protocol t)
  unfolding negotiate
  negotiate-Obeys protocol t = when _ smtp_turns _ protocol t (smtp refuses t) _ (smtp-Obeys t) (
      when _ imap_turns _ protocol t (imap refuses t) _ (imap-Obeys t) (
        when _ pop3_turns _ protocol t (pop3 refuses t) _ (pop3-Obeys t) (
          when _ ftp_turns _ protocol t (ftp refuses t) _ (ftp-Obeys t) (
            when _ postgres_turns _ protocol t (postgres refuses t) _ (postgres-Obeys t) (
              when _ ldap_turns _ protocol t (ldap refuses t) _ (ldap-Obeys t) (
                when _ mysql_turns _ protocol t (mysql refuses t) _ (mysql-Obeys t)
                  (unknown protocol t)))))))
