-- ===== src/I2c/Candidates.antt =====
-- The buses on which crates/daphne-sc-server/src/i2c.rs looks for a device.
use mathlib.Core.List.{Memᴰ}
use mathlib.Core.List.Memᴰ
use daphne_sc.Prelude.{
  ℕ, ◌≤◌, ◌≡◌, ◌↔◌, inl, inr, refl, sym, ap, ◌∙◌, subst, List, [], ◌∷◌, ◌++◌, All, ◌==◌, ==_self,
  leb, Bool-cases, Option, none, some, Option-cases, arith,
}
use daphne_sc.Text.{Text, ascii}
use daphne_sc.Text.Strings.{strip_prefix}
use daphne_sc.Text.Parse.{parse_unsigned}
use daphne_sc.I2c.{
  I2cKernel, bus_of_name, buses_of_names, insert_sorted, sort_unstable, i2c_bus_candidates,
}

abbrev FromBus : ℕ → List ℕ → Type 0
FromBus n buses = All (λ bus. n ≤ bus) buses

abbrev pub IsAscending : List ℕ → Type 0
IsAscending [] = Unit {0}
IsAscending (bus ∷ buses) = FromBus bus buses × IsAscending buses

-- A name of the form `i2c-<bus>`, with the bus a u8 in decimal.
abbrev pub Named : ℕ → List Text → Type 0
Named bus names =
    (number : Text) × Memᴰ (ascii "i2c-" ++ number) names
    × (parse_unsigned 10 0xff number ≡ some bus)

-- The bus that is configured, or else the buses of the names in /dev, in ascending order.
abbrev pub Candidates : Option ℕ → Option (List Text) → List ℕ → Type 0
Candidates (some bus) names buses = buses ≡ bus ∷ []
Candidates none none buses = buses ≡ []
Candidates none (some names) buses =
    IsAscending buses × ((bus : ℕ) → Memᴰ bus buses ↔ Named bus names)

strip_prefix-append : (prefix rest : Text) → strip_prefix prefix (prefix ++ rest) ≡ some rest
unfolding strip_prefix
strip_prefix-append [] rest = refl
strip_prefix-append (p ∷ ps) rest = rw (==_self p) (strip_prefix-append ps rest)

strip_prefix-eq-some :
    (prefix text rest : Text) → strip_prefix prefix text ≡ some rest → text ≡ prefix ++ rest
unfolding strip_prefix
strip_prefix-eq-some [] text rest h = ground arith
strip_prefix-eq-some (p ∷ ps) [] rest h = ground arith
strip_prefix-eq-some (p ∷ ps) (b ∷ bs) rest h = elim (Bool-cases (p == b)) [
  | inl same ↦
      let tail : bs ≡ ps ++ rest = strip_prefix-eq-some ps bs rest (rw same at h) in
      let head : b ≡ p = ground arith in cc
  | inr differs ↦ ground arith
]

bus_of_name-prefixed :
    (number : Text) → bus_of_name (ascii "i2c-" ++ number) ≡ parse_unsigned 10 0xff number
unfolding bus_of_name
bus_of_name-prefixed number = rw (strip_prefix-append (ascii "i2c-") number, bus_of_name) refl

bus_of_name-eq-some :
    (name : Text) (bus : ℕ)
    → bus_of_name name ≡ some bus
    → (number : Text) × (name ≡ ascii "i2c-" ++ number) × (parse_unsigned 10 0xff number ≡ some bus)
unfolding bus_of_name
bus_of_name-eq-some name bus h = elim (Option-cases (strip_prefix (ascii "i2c-") name)) [
  | inl other ↦ absurd (ground (arith, other, h))
  | inr (number, e) ↦
      (number, strip_prefix-eq-some (ascii "i2c-") name number e, rw (e, bus_of_name) at h)
]

skipped :
    (name : Text) (names : List Text)
    → bus_of_name name ≡ none
    → buses_of_names (name ∷ names) ≡ buses_of_names names
unfolding buses_of_names
skipped name names e = rw (e, buses_of_names) refl

counted :
    (name : Text) (bus : ℕ) (names : List Text)
    → bus_of_name name ≡ some bus
    → buses_of_names (name ∷ names) ≡ bus ∷ buses_of_names names
unfolding buses_of_names
counted name bus names e = rw (e, buses_of_names) refl

buses_of_names-Named :
    (names : List Text) (bus : ℕ) → Memᴰ bus (buses_of_names names) → Named bus names
unfolding buses_of_names
buses_of_names-Named [] bus m = absurd (Memᴰ.not-nil m)
buses_of_names-Named (name ∷ names) bus m = elim (Option-cases (bus_of_name name)) [
  | inl other ↦
      let (number, found, e) =
        buses_of_names-Named names bus (subst (Memᴰ bus) (skipped name names other) m) in
      (number, Memᴰ.tail found, e)
  | inr (first, e) ↦ elim (Memᴰ.cases_cons (subst (Memᴰ bus) (counted name first names e) m)) [
    | inl same ↦
        let (number, named, parsed) = bus_of_name-eq-some name first e in
        (number, Memᴰ.head (sym named), parsed ∙ ap some (sym same))
    | inr later ↦
        let (number, found, parsed) = buses_of_names-Named names bus later in
        (number, Memᴰ.tail found, parsed)
  ]
]

Named-found :
    (name : Text) (bus : ℕ) (names : List Text)
    → Memᴰ name names
    → bus_of_name name ≡ some bus
    → Memᴰ bus (buses_of_names names)
unfolding buses_of_names
Named-found name bus names (Memᴰ.head {x} {xs} same) e =
    subst (Memᴰ bus) (sym (counted x bus xs (ap bus_of_name (sym same) ∙ e))) (Memᴰ.head refl)
Named-found name bus names (Memᴰ.tail {x} {xs} m) e = elim (Option-cases (bus_of_name x)) [
  | inl other ↦ subst (Memᴰ bus) (sym (skipped x xs other)) (Named-found name bus xs m e)
  | inr (first, f) ↦
      subst (Memᴰ bus) (sym (counted x first xs f)) (Memᴰ.tail (Named-found name bus xs m e))
]

insert_sorted-mem : (n : ℕ) (ms : List ℕ) (x : ℕ) → Memᴰ x (insert_sorted n ms) ↔ Memᴰ x (n ∷ ms)
unfolding insert_sorted
insert_sorted-mem n [] x = (λ m. m, λ m. m)
insert_sorted-mem n (k ∷ ms) x = elim (Bool-cases (leb n k)) [
  | inl first ↦ rw first (λ m. m, λ m. m)
  | inr later ↦
      let (there, back) = insert_sorted-mem n ms x in
      rw later (
        λ m. elim (Memᴰ.cases_cons m) [
          | inl e ↦ Memᴰ.tail (Memᴰ.head e)
          | inr t ↦ elim (Memᴰ.cases_cons (there t)) [
            | inl e ↦ Memᴰ.head e
            | inr u ↦ Memᴰ.tail (Memᴰ.tail u)
          ]
        ],
        λ m. elim (Memᴰ.cases_cons m) [
          | inl e ↦ Memᴰ.tail (back (Memᴰ.head e))
          | inr t ↦ elim (Memᴰ.cases_cons t) [
            | inl e ↦ Memᴰ.head e
            | inr u ↦ Memᴰ.tail (back (Memᴰ.tail u))
          ]
        ],
      )
]

sort_unstable-mem : (ns : List ℕ) (x : ℕ) → Memᴰ x (sort_unstable ns) ↔ Memᴰ x ns
unfolding sort_unstable
sort_unstable-mem [] x = (λ m. m, λ m. m)
sort_unstable-mem (n ∷ ns) x =
    let (there, back) = sort_unstable-mem ns x in
    let (inserted, kept) = insert_sorted-mem n (sort_unstable ns) x in
    (
      λ m. elim (Memᴰ.cases_cons (inserted m)) [
        | inl e ↦ Memᴰ.head e
        | inr t ↦ Memᴰ.tail (there t)
      ],
      λ m. elim (Memᴰ.cases_cons m) [
        | inl e ↦ kept (Memᴰ.head e)
        | inr t ↦ kept (Memᴰ.tail (back t))
      ],
    )

FromBus-le : (m n : ℕ) (ns : List ℕ) → m ≤ n → FromBus n ns → FromBus m ns
FromBus-le m n [] le h = tt
FromBus-le m n (k ∷ ns) le (h, hs) = (omega arith, FromBus-le m n ns le hs)

insert_sorted-FromBus :
    (m n : ℕ) (ns : List ℕ) → m ≤ n → FromBus m ns → FromBus m (insert_sorted n ns)
unfolding insert_sorted
insert_sorted-FromBus m n [] le h = (le, tt)
insert_sorted-FromBus m n (k ∷ ns) le (h, hs) = elim (Bool-cases (leb n k)) [
  | inl first ↦ rw first (le, (h, hs))
  | inr later ↦ rw later (h, insert_sorted-FromBus m n ns le hs)
]

insert_sorted-IsAscending :
    (n : ℕ) (ns : List ℕ) → IsAscending ns → IsAscending (insert_sorted n ns)
unfolding insert_sorted
insert_sorted-IsAscending n [] h = (tt, tt)
insert_sorted-IsAscending n (k ∷ ns) (h, hs) = elim (Bool-cases (leb n k)) [
  | inl first ↦ let le : n ≤ k = ground arith in rw first ((le, FromBus-le n k ns le h), (h, hs))
  | inr later ↦
      let le : k ≤ n = ground arith in
      rw later (insert_sorted-FromBus k n ns le h, insert_sorted-IsAscending n ns hs)
]

sort_unstable-IsAscending : (ns : List ℕ) → IsAscending (sort_unstable ns)
unfolding sort_unstable
sort_unstable-IsAscending [] = tt
sort_unstable-IsAscending (n ∷ ns) =
    insert_sorted-IsAscending n (sort_unstable ns) (sort_unstable-IsAscending ns)

module _ {K F : Type 0} (kernel : I2cKernel K F) where
  pub candidates_lem :
      (configured : Option ℕ) (k : K)
      → Candidates configured (kernel.dev_names k) (i2c_bus_candidates kernel configured k)
  unfolding i2c_bus_candidates
  candidates_lem (some bus) k = refl
  candidates_lem none k = elim (Option-cases (kernel.dev_names k)) [
    | inl unread ↦ rw (unread, i2c_bus_candidates) refl
    | inr (names, listed) ↦
        rw (listed, i2c_bus_candidates)
          (
            sort_unstable-IsAscending (buses_of_names names),
            λ bus. (
              λ m.
                  buses_of_names-Named names bus
                    ((sort_unstable-mem (buses_of_names names) bus).0 m),
              λ named.
                  let (number, found, parsed) = named in
                  (sort_unstable-mem (buses_of_names names) bus).1 (
                    Named-found (ascii "i2c-" ++ number) bus names found
                      (bus_of_name-prefixed number ∙ parsed)),
            ),
          )
  ]
