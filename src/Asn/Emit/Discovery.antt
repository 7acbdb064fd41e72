-- ===== src/Asn/Emit/Discovery.antt =====
-- emit.rs: which names `discover_pairs` finds, and in what order.
use tightbeam_ext.Prelude.{
  ℕ, ◌≡◌, ◌↔◌, ◌⊎◌, refl, subst, ap, ◌∙◌, true, false, none, some, List, [], ◌∷◌, ◌++◌, all, is_nil,
  arith, Bool-cases, Option-cases, inl, inr, ◌==◌, ==_iff, ascii,
}
use tightbeam_ext.Prelude.Octets.{strip_prefix, strip_prefix-append, strip_prefix→append}
use tightbeam_ext.Prelude.IdSet.{contains, contains-is_nil}
use tightbeam_ext.Prelude.Keys.{nat_eq, list_eq, list_beq, list_beq_iff}
use tightbeam_ext.Prelude.Ordered.{
  insert, intersection, IsAscending, contains-insert, contains-intersection, insert-IsAscending,
  intersection-IsAscending,
}
use tightbeam_ext.Prelude.Result.{ok, err}
use tightbeam_ext.Asn.Emit.{
  Text, no_codec_pairs, trim_start, lines, before, is_word, marker, export_name, collect,
  collect_export_names, discover_pairs,
}

-- The line is `export function`, the prefix, the name and an open parenthesis, after any blanks.
abbrev pub Declares : Text → Text → Text → Type 0
Declares pre line name = (rest : Text) × (trim_start line ≡ marker pre ++ (name ++ 40 ∷ rest))

-- A name of one or more word characters that some line declares.
pub record Exports (dts pre name : Text) : Type 0 where
  pub nonempty : is_nil name ≡ false
  pub worded : all is_word name ≡ true
  pub line : Text
  pub listed : contains line (lines dts) ≡ true
  pub declares : Declares pre line name

before-some :
    (c : ℕ) (s name : Text) → before c s ≡ some name → (rest : Text) × (s ≡ name ++ c ∷ rest)
unfolding before
before-some c [] name h = absurd (ground arith)
before-some c (d ∷ s) name h = elim (Bool-cases (d == c)) [
  | inl same ↦
      let empty : [] ≡ name = ground arith in
      (s, subst (λ (n : Text). d ∷ s ≡ n ++ c ∷ s) empty (rw ((==_iff d c).0 same) refl))
  | inr other ↦ elim (Option-cases (before c s)) [
    | inl e ↦ absurd (ground arith)
    | inr (tail, e) ↦
        let (rest, q) = before-some c s tail e in
        let named : d ∷ tail ≡ name = ground arith in
        (rest, subst (λ (n : Text). d ∷ s ≡ n ++ c ∷ rest) named (rw q refl))
  ]
]

before-append :
    (name rest : Text) → all is_word name ≡ true → before 40 (name ++ 40 ∷ rest) ≡ some name
unfolding before
before-append [] rest w = refl
before-append (c ∷ name) rest w = let ih = before-append name rest in ground (arith, ih)

pub export_name-some_iff :
    (pre line name : Text)
    → (export_name pre line ≡ some name)
      ↔ ((is_nil name ≡ false) × (all is_word name ≡ true) × Declares pre line name)
unfolding export_name
export_name-some_iff pre line name = (
  λ h. elim (Option-cases (strip_prefix (marker pre) (trim_start line))) [
    | inl e ↦ absurd (ground arith)
    | inr (rest, e) ↦ elim (Option-cases (before 40 rest)) [
      | inl g ↦ absurd (ground arith)
      | inr (n, g) ↦
          let same : n ≡ name = ground arith in
          let (tail, q) = before-some 40 rest n g in
          (
            ground arith,
            ground arith,
            (
              tail,
              subst (λ (m : Text). trim_start line ≡ marker pre ++ (m ++ 40 ∷ tail)) same
                  (strip_prefix→append (marker pre) (trim_start line) rest e
                    ∙ ap (◌++◌ (marker pre)) q),
            ),
          )
    ]
  ],
  λ h.
      let (some_name, worded, declared) = h in
      let (rest, q) = declared in
      rw (q, strip_prefix-append (marker pre) (name ++ 40 ∷ rest), export_name)
        (rw (before-append name rest worded, some_name, worded) refl),
)

nothing : (name : Text) → contains name [] ≡ true → ⊥
unfolding contains
nothing name h = ground arith

module _ (pre : Text) where
  collect_skip :
      (names : List Text) (line : Text) (ls : List Text)
      → export_name pre line ≡ none
      → collect pre names (line ∷ ls) ≡ collect pre names ls
  unfolding collect
  collect_skip names line ls e = rw (e, collect) refl

  collect_take :
      (names : List Text) (line name : Text) (ls : List Text)
      → export_name pre line ≡ some name
      → collect pre names (line ∷ ls) ≡ collect pre (insert name names) ls
  unfolding collect
  collect_take names line name ls e = rw (e, collect) refl

  -- What was found stays found.
  collect-keeps :
      (ls names : List Text) (name : Text)
      → contains name names ≡ true
      → contains name (collect pre names ls) ≡ true
  unfolding collect
  collect-keeps [] names name c = c
  collect-keeps (line ∷ ls) names name c = elim (Option-cases (export_name pre line)) [
    | inl e ↦ rw (collect_skip names line ls e) (collect-keeps ls names name c)
    | inr (n, e) ↦
        rw (collect_take names line n ls e)
          (collect-keeps ls (insert n names) name (grind (arith, contains-insert n name names)))
  ]

  -- What a line exports is found.
  collect-finds :
      (ls names : List Text) (name line : Text)
      → contains line ls ≡ true
      → export_name pre line ≡ some name
      → contains name (collect pre names ls) ≡ true
  unfolding contains
  collect-finds [] names name line c e = absurd (ground arith)
  collect-finds (l ∷ ls) names name line c e = elim (Bool-cases (list_beq l line)) [
    | inl same ↦
        let here : export_name pre l ≡ some name = rw ((list_beq_iff l line).0 same) e in
        rw (collect_take names l name ls here) (
          collect-keeps ls (insert name names) name
            (grind (arith, contains-insert name name names, list_beq_iff name name)))
    | inr other ↦ elim (Option-cases (export_name pre l)) [
      | inl g ↦ rw (collect_skip names l ls g) (collect-finds ls names name line (ground arith) e)
      | inr (n, g) ↦
          rw (collect_take names l n ls g)
            (collect-finds ls (insert n names) name line (ground arith) e)
    ]
  ]

  -- Nothing else is found.
  collect-only :
      (ls names : List Text) (name : Text)
      → contains name (collect pre names ls) ≡ true
      → (contains name names ≡ true)
        ⊎ ((line : Text) × (contains line ls ≡ true) × (export_name pre line ≡ some name))
  unfolding contains collect
  collect-only [] names name c = inl c
  collect-only (l ∷ ls) names name c = elim (Option-cases (export_name pre l)) [
    | inl e ↦ elim (collect-only ls names name (rw (← collect_skip names l ls e) c)) [
      | inl had ↦ inl had
      | inr (line, there, exports) ↦ inr (line, ground arith, exports)
    ]
    | inr (n, e) ↦
        elim (collect-only ls (insert n names) name (rw (← collect_take names l n ls e) c)) [
          | inl had ↦ elim (Bool-cases (list_beq n name)) [
            | inl same ↦
                inr (l, grind (arith, list_beq_iff l l), rw (← ((list_beq_iff n name).0 same)) e)
            | inr other ↦ inl (grind (arith, contains-insert n name names))
          ]
          | inr (line, there, exports) ↦ inr (line, ground arith, exports)
        ]
  ]

  collect-IsAscending :
      (ls names : List Text) → IsAscending names → IsAscending (collect pre names ls)
  unfolding collect
  collect-IsAscending [] names h = h
  collect-IsAscending (l ∷ ls) names h = elim (Option-cases (export_name pre l)) [
    | inl e ↦ rw (collect_skip names l ls e) (collect-IsAscending ls names h)
    | inr (n, e) ↦
        rw (collect_take names l n ls e)
          (collect-IsAscending ls (insert n names) (insert-IsAscending n names h))
  ]

  collect_export_names-contains :
      (dts name : Text)
      → (contains name (collect_export_names dts pre) ≡ true) ↔ Exports dts pre name
  unfolding collect_export_names
  collect_export_names-contains dts name = (
    λ c. elim (collect-only (lines dts) [] name c) [
      | inl had ↦ absurd (nothing name had)
      | inr (line, listed, exports) ↦
          let (nonempty, worded, declares) = (export_name-some_iff pre line name).0 exports in
          record {
            nonempty = nonempty;
            worded = worded;
            line = line;
            listed = listed;
            declares = declares;
          }
    ],
    λ x.
        collect-finds (lines dts) [] name x.line x.listed
          ((export_name-some_iff pre x.line name).1 (x.nonempty, x.worded, x.declares)),
  )

-- The names found with both prefixes.
abbrev pairs : Text → List Text
pairs dts =
    intersection (collect_export_names dts (ascii "encode"))
      (collect_export_names dts (ascii "decode"))

pairs-contains :
    (dts name : Text)
    → (contains name (pairs dts) ≡ true)
      ↔ (Exports dts (ascii "encode") name × Exports dts (ascii "decode") name)
pairs-contains dts name =
    let both =
      contains-intersection name (collect_export_names dts (ascii "encode"))
        (collect_export_names dts (ascii "decode")) in
    let encodes = collect_export_names-contains (ascii "encode") dts name in
    let decodes = collect_export_names-contains (ascii "decode") dts name in
    (
      λ c. (encodes.0 (ground (arith, both)), decodes.0 (ground (arith, both))),
      λ x. let e = encodes.1 x.0 in let d = decodes.1 x.1 in ground (arith, both),
    )

pairs-IsAscending : (dts : Text) → IsAscending (pairs dts)
unfolding collect_export_names
pairs-IsAscending dts =
    intersection-IsAscending (collect_export_names dts (ascii "encode"))
      (collect_export_names dts (ascii "decode"))
      (collect-IsAscending (ascii "encode") (lines dts) [] tt)

inhabited : (xs : List Text) → is_nil xs ≡ false → (x : Text) × (contains x xs ≡ true)
unfolding contains
inhabited [] h = absurd (ground arith)
inhabited (x ∷ xs) h = (x, grind (arith, list_beq_iff x x))

-- A discovery that succeeds gives, in strictly ascending order and so without repetition, exactly
-- the names of which some line exports an `encode` function and some line a `decode` function.
pub discover_pairs-ok :
    {IoError : Type 0} (dts : Text) (names : List Text)
    → discover_pairs {IoError = IoError} dts ≡ ok names
    → IsAscending names
      × ((name : Text)
          → (contains name names ≡ true)
            ↔ (Exports dts (ascii "encode") name × Exports dts (ascii "decode") name))
unfolding discover_pairs
discover_pairs-ok dts names h = elim (Bool-cases (is_nil (pairs dts))) [
  | inl e ↦ absurd (ground arith)
  | inr e ↦
      let same : pairs dts ≡ names = ground arith in
      subst
        (λ (ns : List Text).
          IsAscending ns
          × ((name : Text)
              → (contains name ns ≡ true)
                ↔ (Exports dts (ascii "encode") name × Exports dts (ascii "decode") name)))
        same (pairs-IsAscending dts, pairs-contains dts)
]

-- A discovery fails exactly when no name is exported with both.
pub discover_pairs-err_iff :
    {IoError : Type 0} (dts : Text)
    → (discover_pairs {IoError = IoError} dts ≡ err no_codec_pairs)
      ↔ ((name : Text) → Exports dts (ascii "encode") name → Exports dts (ascii "decode") name → ⊥)
unfolding discover_pairs
discover_pairs-err_iff dts = (
  λ h name x y.
      let there = (pairs-contains dts name).1 (x, y) in
      let full = contains-is_nil name (pairs dts) there in ground arith,
  λ h. elim (Bool-cases (is_nil (pairs dts))) [
    | inl e ↦ rw e refl
    | inr e ↦
        let (name, there) = inhabited (pairs dts) e in
        let (x, y) = (pairs-contains dts name).0 there in absurd (h name x y)
  ],
)
