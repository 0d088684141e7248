-- ===== src/References/Delta/Empty.antt =====
-- When `inventory_delta` finds nothing.
use lua_mongodb.Base.{
  String, true, false, not, Option, none, some, [], ◌≡◌, ◌↔◌, refl, ap, arith, inl, inr, In,
  contains, contains_iff, Bool-cases, Option-cases,
}
use lua_mongodb.Json.{obj, Fields, end, same}
use lua_mongodb.Names.{sorted_names, without_names, common_names}
use lua_mongodb.Names.Order.{sorted_names-In, without_names-In, common_names-In}
use lua_mongodb.References.Delta.{
  Inventory, identities, find, entry_of, identified, change, differs, Delta, inventory_delta,
}
use lua_mongodb.References.Delta.Find.{find-In, In-find, nil-not-In, not-In-nil, map-nil, keep-In}

-- what stands under an identity on both sides: nothing, or records that are equal
abbrev pub AgreeAt : Option Fields → Option Fields → Type 0
AgreeAt none none = Unit
AgreeAt (some a) (some b) = same (obj a) (obj b) ≡ true
AgreeAt _ _ = ⊥

-- no record is added, removed or changed
abbrev pub IsEmpty : Delta → Type 0
IsEmpty delta = (delta.added ≡ []) × (delta.removed ≡ []) × (delta.changed ≡ [])

abbrev pub Agree : Inventory → Inventory → Type 0
Agree before after = (identity : String) → AgreeAt (find identity before) (find identity after)

find-there :
    (identity : String) (inventory : Inventory)
    → In identity (identities inventory)
    → (fs : Fields) × (find identity inventory ≡ some fs)
find-there identity inventory m = elim (Option-cases (find identity inventory)) [
  | inl e ↦ absurd (find-In identity inventory m e)
  | inr there ↦ there
]

there-find :
    (identity : String) (inventory : Inventory) (fs : Fields)
    → find identity inventory ≡ some fs
    → In identity (identities inventory)
there-find identity inventory fs e = elim (Bool-cases (contains (identities inventory) identity)) [
  | inl c ↦ (contains_iff (identities inventory) identity).0 c
  | inr c ↦
      let none_there =
        In-find identity inventory
          (λ m. ground (arith, (contains_iff (identities inventory) identity).1 m)) in
      cc (none_there, e)
]

unmatched : (o p : Option Fields) (fs : Fields) → o ≡ none → p ≡ some fs → ¬ AgreeAt o p
unmatched none none fs g h a = cc
unmatched none (some b) fs g h a = a
unmatched (some b) p fs g h a = cc

unmatched_left : (o p : Option Fields) (fs : Fields) → o ≡ some fs → p ≡ none → ¬ AgreeAt o p
unmatched_left none p fs g h a = cc
unmatched_left (some b) none fs g h a = a
unmatched_left (some b) (some c) fs g h a = cc

matched :
    (o p : Option Fields) (a b : Fields)
    → o ≡ some a
    → p ≡ some b
    → AgreeAt o p
    → same (obj (elim o [ none ↦ end | some fs ↦ fs ])) (obj (elim p [ none ↦ end | some fs ↦ fs ]))
      ≡ true
matched none p a b g h m = cc
matched (some o) none a b g h m = cc
matched (some o) (some p) a b g h m = m

agree_of :
    (o p : Option Fields)
    → ((fs : Fields) → o ≡ some fs → ¬ (p ≡ none))
    → ((fs : Fields) → p ≡ some fs → ¬ (o ≡ none))
    → ((a b : Fields)
        → o ≡ some a
        → p ≡ some b
        → same
            (obj (elim o [ none ↦ end | some fs ↦ fs ]))
            (obj (elim p [ none ↦ end | some fs ↦ fs ]))
          ≡ true)
    → AgreeAt o p
agree_of none none f g h = tt
agree_of (some a) none f g h = f a refl refl
agree_of none (some b) f g h = g b refl refl
agree_of (some a) (some b) f g h = h a b refl refl

-- an identity of the one side alone stands in what the other lacks
lacking-In :
    (identity : String) (here there : Inventory) (fs : Fields)
    → find identity here ≡ some fs
    → find identity there ≡ none
    → In identity (sorted_names (without_names (identities here) (identities there)))
lacking-In identity here there fs e lost =
    let absent : contains (identities there) identity ≡ false =
      elim (Bool-cases (contains (identities there) identity)) [
        | inl c ↦
            absurd (find-In identity there ((contains_iff (identities there) identity).0 c) lost)
        | inr c ↦ c
      ] in
    (sorted_names-In identity (without_names (identities here) (identities there))).1 (
      (without_names-In identity (identities here) (identities there)).1
        (there-find identity here fs e, absent))

IsEmpty-Agree :
    (before after : Inventory) → IsEmpty (inventory_delta before after) → Agree before after
unfolding inventory_delta
IsEmpty-Agree before after (added, removed, changed) identity =
    agree_of (find identity before) (find identity after)
      (λ fs e lost.
        nil-not-In identity _ ((map-nil (identified before) _).0 removed)
          (lacking-In identity before after fs e lost))
      (λ fs e lost.
        nil-not-In identity _ ((map-nil (identified after) _).0 added)
          (lacking-In identity after before fs e lost))
      (λ a b e f.
        let both =
          (sorted_names-In identity (common_names (identities before) (identities after))).1 (
            (common_names-In identity (identities before) (identities after)).1
              (there-find identity before a e, there-find identity after b f)) in
        elim (Bool-cases (same (obj (entry_of before identity)) (obj (entry_of after identity)))) [
          | inl p ↦ p
          | inr p ↦ absurd (
              nil-not-In identity _ ((map-nil (change before after) _).0 changed)
                ((keep-In (differs before after) identity _).1 (both, ap not p)))
        ])

lacks_none :
    (here there : Inventory)
    → ((identity : String) → In identity (identities here) → In identity (identities there))
    → sorted_names (without_names (identities here) (identities there)) ≡ []
lacks_none here there h = not-In-nil _ (λ identity m.
    let member =
      (sorted_names-In identity (without_names (identities here) (identities there))).0 m in
    let (inside, absent) =
      (without_names-In identity (identities here) (identities there)).0 member in
    ground (arith, (contains_iff (identities there) identity).1 (h identity inside)))

Agree-In-left :
    (before after : Inventory)
    → Agree before after
    → (identity : String) → In identity (identities after)
    → In identity (identities before)
Agree-In-left before after agree identity m =
    let (fs, e) = find-there identity after m in
    elim (Option-cases (find identity before)) [
      | inl lost ↦
          absurd (unmatched (find identity before) (find identity after) fs lost e (agree identity))
      | inr there ↦ there-find identity before there.0 there.1
    ]

Agree-In-right :
    (before after : Inventory)
    → Agree before after
    → (identity : String) → In identity (identities before)
    → In identity (identities after)
Agree-In-right before after agree identity m =
    let (fs, e) = find-there identity before m in
    elim (Option-cases (find identity after)) [
      | inl lost ↦
          absurd
            (unmatched_left (find identity before) (find identity after) fs e lost (agree identity))
      | inr there ↦ there-find identity after there.0 there.1
    ]

-- an identity on both sides
common :
    (before after : Inventory) (identity : String)
    → In identity (sorted_names (common_names (identities before) (identities after)))
    → In identity (identities before) × In identity (identities after)
common before after identity m =
    (common_names-In identity (identities before) (identities after)).0
      ((sorted_names-In identity (common_names (identities before) (identities after))).0 m)

Agree-same :
    (before after : Inventory)
    → Agree before after
    → (identity : String) → In identity (identities before)
    → In identity (identities after)
    → same (obj (entry_of before identity)) (obj (entry_of after identity)) ≡ true
Agree-same before after agree identity m k =
    let (a, e) = find-there identity before m in
    let (b, f) = find-there identity after k in
    matched (find identity before) (find identity after) a b e f (agree identity)

Agree-IsEmpty :
    (before after : Inventory) → Agree before after → IsEmpty (inventory_delta before after)
unfolding inventory_delta
Agree-IsEmpty before after agree = (
  (map-nil (identified after) _).1 (lacks_none after before (Agree-In-left before after agree)),
  (map-nil (identified before) _).1 (lacks_none before after (Agree-In-right before after agree)),
  (map-nil (change before after) _).1 (
      not-In-nil _ (λ identity m.
        let (inside, differ) = (keep-In (differs before after) identity _).0 m in
        let (left, right) = common before after identity inside in
        ground (arith, Agree-same before after agree identity left right))),
)

-- A delta is empty exactly when the two inventories have the same identities and equal records under
-- each: `find` gives nothing on both sides, or records that Python's `==` holds equal.
pub inventory_delta-IsEmpty :
    (before after : Inventory) → IsEmpty (inventory_delta before after) ↔ Agree before after
inventory_delta-IsEmpty before after = (IsEmpty-Agree before after, Agree-IsEmpty before after)
