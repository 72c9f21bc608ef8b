-- ===== src/Output/Writer/Laws.antt =====
-- What a writer of the format `dns` prints.
use ctscan.Base.{
  Bool, true, false, ◌&&◌, ◌||◌, not, List, [], ◌∷◌, ◌++◌, Option, none, some, ◌==◌, contains,
  text_eq, Bytes, codes, Outcome, ◌≡◌, refl, sym, ap, ◌∙◌, arith, Distinct, Distinct-concat,
  contains-append, Bool-cases, inl, inr,
}
use ctscan.Input.Names.{Idna}
use ctscan.Output.Names.{certificate_names}
use ctscan.Output.Names.Laws.{certificate_names_lem, names_it}
use ctscan.Output.Writer.{
  Format, dns, Writer, new_writer, format_of, printed, print_line, print_name, meet_name,
  after_name, print_names, print_as, write, write_each,
}
use ctscan.Types.{Result}

-- From `w` to `w'`, the names of `extra` were printed, and nothing else was.
abbrev Prints : Writer → Writer → (Bytes → Bool) → Type 0
Prints w w' extra =
    (w'.config ≡ w.config)
    × (w.lines ≡ w.seen_dns → w'.lines ≡ w'.seen_dns)
    × (Distinct w.seen_dns → Distinct w'.seen_dns)
    × ((n : Bytes) → contains w'.seen_dns n ≡ (contains w.seen_dns n || extra n))

nothing-Prints : (w : Writer) → Prints w w (λ n. false)
nothing-Prints w = (refl, λ h. h, λ d. d, λ n. ground arith)

trans-Prints :
    (w w' w'' : Writer) (f g h : Bytes → Bool)
    → Prints w w' f
    → Prints w' w'' g
    → ((n : Bytes) → (f n || g n) ≡ h n)
    → Prints w w'' h
trans-Prints w w' w'' f g h (c, l, d, p) (c', l', d', p') e =
    (c' ∙ c, λ q. l' (l q), λ q. d' (d q), λ n. ground (arith, p n, p' n, e n))

module _ {E : Type 0} (idna : Idna) (encode : Result → Outcome E Bytes)
    (refuses : List Bytes → Bytes → Option E) where
  printed-eq :
      (w w' : Writer) (line : Bytes) (o : Option E)
      → printed idna encode refuses w line o ≡ (w', none)
      → ◌≡◌ {A = Writer} (record w { lines = w.lines ++ line ∷ [] }) w'
  unfolding printed
  printed-eq w w' line none h = cc
  printed-eq w w' line (some e) h = cc

  print_name-Prints :
      (w w' : Writer) (name : Bytes)
      → contains w.seen_dns name ≡ false
      → print_name idna encode refuses w name ≡ (w', none)
      → Prints w w' (λ n. n == name)
  unfolding print_name print_line
  print_name-Prints w w' name fresh h =
      let w₁ : Writer = record w { seen_dns = w.seen_dns ++ name ∷ [] } in
      let p = printed-eq w₁ w' name (refuses w.lines name) h in
      rw⁻¹ p (
        refl,
        λ q. ap (λ ls. ls ++ name ∷ []) q,
        λ d. Distinct-concat w.seen_dns name d fresh,
        λ n. contains-append w.seen_dns (name ∷ []) n ∙ ground arith,
      )

  after_name-eq :
      (r : Writer × Option E) (rest : Writer → Writer × Option E) (w' : Writer)
      → after_name idna encode refuses r rest ≡ (w', none)
      → (w₁ : Writer) × (r ≡ (w₁, none)) × (rest w₁ ≡ (w', none))
  unfolding after_name
  after_name-eq (w₁, none) rest w' h = (w₁, refl, h)
  after_name-eq (w₁, some e) rest w' h = cc

  same-Prints :
      (w w' : Writer) → ◌≡◌ {A = Writer × Option E} (w, none) (w', none) → Prints w w' (λ n. false)
  same-Prints w w' h = let p : w ≡ w' = cc in rw⁻¹ p (nothing-Prints w)

  meet_name-Prints :
      (w w' : Writer) (name : Bytes)
      → meet_name idna encode refuses w name ≡ (w', none)
      → Prints w w' (λ n. n == name)
  unfolding meet_name
  meet_name-Prints w w' name h = elim (Bool-cases (contains w.seen_dns name)) [
    | inl seen ↦
        let (c, l, d, p) = same-Prints w w' (rw seen at h) in (c, l, d, λ n. p n ∙ ground arith)
    | inr fresh ↦ print_name-Prints w w' name fresh (rw fresh at h)
  ]

  print_names-Prints :
      (names : List Bytes) (w w' : Writer)
      → print_names idna encode refuses names w ≡ (w', none)
      → Prints w w' (contains names)
  unfolding print_names
  print_names-Prints [] w w' h = same-Prints w w' h
  print_names-Prints (name ∷ names) w w' h =
      let (w₁, first, rest) =
        after_name-eq (meet_name idna encode refuses w name) (print_names idna encode refuses names)
          w' h in
      trans-Prints w w₁ w' (λ n. n == name) (contains names) (contains (name ∷ names))
        (meet_name-Prints w w₁ name first) (print_names-Prints names w₁ w' rest) (λ n. refl)

  -- The result is one that `Write` does not leave out.
  abbrev pub is_shown : Bool → Result → Bool
  is_shown include_failures result = result.status == codes "success" || include_failures

  -- A shown result of the list has a certificate that names the name.
  abbrev pub any_names : Bool → List Result → Bytes → Bool
  any_names include_failures [] n = false
  any_names include_failures (result ∷ results) n =
      (is_shown include_failures result && names_it idna result.certificate n)
      || any_names include_failures results n

  guard : (a b : Bool) → (not a && not b) ≡ not (a || b)
  guard true b = refl
  guard false b = refl

  print_as-dns :
      (f : Format) (w : Writer) (result : Result)
      → f ≡ dns
      → print_as idna encode refuses f w result
        ≡ print_names idna encode refuses (certificate_names idna result) w
  unfolding print_as
  print_as-dns f w result e = rw e

  write-Prints :
      (w w' : Writer) (result : Result)
      → w.config.format ≡ dns
      → write idna encode refuses w result ≡ (w', none)
      → Prints w w'
          (λ n. is_shown w.config.include_failures result && names_it idna result.certificate n)
  unfolding write print_as
  write-Prints w w' result format h =
      elim (Bool-cases (is_shown w.config.include_failures result)) [
        | inl shown ↦
            let (c, l, d, p) =
              print_names-Prints (certificate_names idna result) w w'
                (sym (print_as-dns w.config.format w result format) ∙ (rw (guard, shown) at h)) in
            (c, l, d, λ n. p n ∙ rw (shown, (certificate_names_lem idna result).2 n) refl)
        | inr hidden ↦
            let (c, l, d, p) = same-Prints w w' (rw (guard, hidden) at h) in
            (c, l, d, λ n. p n ∙ rw hidden refl)
      ]

  write_each-Prints :
      (results : List Result) (w w' : Writer) (include_failures : Bool)
      → w.config ≡ record { format = dns; include_failures = include_failures }
      → write_each idna encode refuses results w ≡ (w', none)
      → Prints w w' (any_names include_failures results)
  unfolding write_each
  write_each-Prints [] w w' b config h = same-Prints w w' h
  write_each-Prints (result ∷ results) w w' b config h =
      let (w₁, first, rest) =
        after_name-eq (write idna encode refuses w result) (write_each idna encode refuses results)
          w' h in
      let one = write-Prints w w₁ result (ap (λ c. c.format) config) first in
      trans-Prints w w₁ w'
        (λ n. is_shown w.config.include_failures result && names_it idna result.certificate n)
        (any_names b results) (any_names b (result ∷ results)) one
        (write_each-Prints results w₁ w' b (one.0 ∙ config) rest)
        (λ n. rw (ap (λ c. c.include_failures) config) refl)

  -- A new writer of the format `dns`, to which a list of results is written with no error, has
  -- printed each name once, and exactly the names that the certificates of the shown results give.
  pub write_each-dns :
      (include_failures : Bool) (results : List Result) (w w' : Writer)
      → new_writer (codes "dns") include_failures ≡ some w
      → write_each idna encode refuses results w ≡ (w', none)
      → Distinct w'.lines
        × ((n : Bytes) → contains w'.lines n ≡ any_names include_failures results n)
  unfolding new_writer format_of text_eq
  write_each-dns b results w w' new h =
      let fresh : record {
        config = record { format = dns; include_failures = b };
        lines = [];
        seen_dns = [];
      }
          ≡ w =
        cc in
      let (c, l, d, p) = write_each-Prints results w w' b (ap (λ x. x.config) (sym fresh)) h in
      let same : w'.lines ≡ w'.seen_dns =
        l (ap (λ x. x.lines) (sym fresh) ∙ ap (λ x. x.seen_dns) fresh) in
      let none_seen : w.seen_dns ≡ [] = ap (λ x. x.seen_dns) (sym fresh) in
      (
        rw same (d (rw none_seen tt)),
        λ n.
            ap (λ ls. contains ls n) same
            ∙ p n
            ∙ ap (λ ls. contains ls n || any_names b results n) none_seen,
      )
