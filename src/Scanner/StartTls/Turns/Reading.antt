-- ===== src/Scanner/StartTls/Turns/Reading.antt =====
-- The readings of a STARTTLS conversation find what a turn must hear, or there is none of it.
use std.Path.{fun_ext}
use ctscan.Base.{
  ℕ, zero, suc, Bool, true, false, not, ◌||◌, List, [], ◌∷◌, nat_eq, text_eq, Bytes, codes, ◌≡◌,
  ◌⊎◌, inl, inr, refl, arith, Bool-cases,
}
use ctscan.Base.Text.{trim_space, has_prefix, strip_prefix}
use ctscan.Scanner.StartTls.{
  Answer, received, failed, next_answer, line_of, read_line, goes_on, read_reply, contains_bytes,
  check_postgres, check_ldap,
}
use ctscan.Scanner.StartTls.Turns.{HeardReply, HeardLine, passes, starts}

-- What is heard takes the answers from the first list to the second.
abbrev pub Hearing : Type 1
Hearing = List Answer → List Answer → Type 0

-- A reading finds what is to be heard, or there is nothing of it to be heard.
abbrev pub Decides : Hearing → Bool → List Answer → List Answer → Type 0
Decides heard bad before after =
    ((bad ≡ false) × heard before after) ⊎ ((bad ≡ true) × ((l : List Answer) → heard before l → ⊥))

abbrev pub Reads : (List Answer → (Bytes × Bool) × List Answer) → (Bytes → Bool) → Hearing → Type 0
Reads read fits heard =
    (before : List Answer)
    → Decides heard ((read before).0.1 || not (fits (read before).0.0)) before (read before).1

pub read_line-Reads : (fits : Bytes → Bool) → Reads read_line fits (HeardLine fits)
unfolding read_line next_answer line_of
read_line-Reads fits [] = inr (refl, λ l (line, e, f). cc)
read_line-Reads fits (failed line message ∷ more) = inr (refl, λ l (line', e, f). cc)
read_line-Reads fits (received line ∷ more) = elim (Bool-cases (fits (trim_space line))) [
  | inl good ↦ inl (rw good refl, (line, refl, good))
  | inr bad ↦ inr (rw bad refl, λ l (line', e, f). cc)
]

pub same_answer :
    (b c : Bytes) (xs ys : List Answer)
    → ◌≡◌ {A = List Answer} (received b ∷ xs) (received c ∷ ys)
    → (b ≡ c) × (xs ≡ ys)
same_answer b c xs ys e = (cc, cc)

pub read_reply-Reads :
    (n : ℕ) (last : Bytes) (fits : Bytes → Bool)
    → Reads (read_reply n last) fits (HeardReply n fits)
unfolding read_reply read_line next_answer line_of
read_reply-Reads zero last fits before = inr (refl, λ l h. h)
read_reply-Reads (suc n) last fits [] = inr (refl, λ l (line, more, e, h). cc)
read_reply-Reads (suc n) last fits (failed part message ∷ answers) =
    inr (refl, λ l (line, more, e, h). cc)
read_reply-Reads (suc n) last fits (received part ∷ answers) =
    elim (Bool-cases (goes_on (trim_space part))) [
      | inl more_lines ↦ elim (read_reply-Reads n (trim_space part) fits answers) [
        | inl (good, heard) ↦
            rw more_lines (inl (good, (part, answers, refl, inr (more_lines, heard))))
        | inr (bad, unheard) ↦ rw more_lines (
            inr (
              bad,
              λ l (line, more, e, h).
                  let (same, same_rest) = same_answer part line answers more e in
                  elim h [
                    | inl (final, good, ends) ↦ cc
                    | inr (again, later) ↦ unheard l (rw same_rest later)
                  ],
            ))
      ]
      | inr last_line ↦ elim (Bool-cases (fits (trim_space part))) [
        | inl good ↦
            rw last_line (inl (rw good refl, (part, answers, refl, inl (last_line, good, refl))))
        | inr bad ↦ rw last_line (
            inr (
              rw bad refl,
              λ l (line, more, e, h).
                  let (same, same_rest) = same_answer part line answers more e in
                  elim h [ inl (final, good, ends) ↦ cc | inr (again, later) ↦ cc ],
            ))
      ]
    ]

postgres_at : (b : Bytes) → passes check_postgres b ≡ starts (codes "S") b
unfolding check_postgres has_prefix strip_prefix
postgres_at [] = refl
postgres_at (c ∷ rest) = ground arith

pub postgres_test : passes check_postgres ≡ starts (codes "S")
postgres_test = fun_ext postgres_at

ldap_at : (b : Bytes) → passes check_ldap b ≡ contains_bytes b (10 ∷ 1 ∷ 0 ∷ [])
unfolding check_ldap
ldap_at b = ground arith

pub ldap_test : passes check_ldap ≡ (λ b. contains_bytes b (10 ∷ 1 ∷ 0 ∷ []))
ldap_test = fun_ext ldap_at
