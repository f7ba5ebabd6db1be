-- ===== src/Lock/References/Laws.antt =====
-- `walk_mutable` of scripts/lock.py finds every mutable reference of a value, at any depth.
use k8labs.Base.{ℕ, ◌+◌, String, Bool, false, List, [], ◌∷◌, ◌++◌, ◌≡◌, ◌↔◌, refl}
use k8labs.Base.{arith, All, All-append, All-append_left, ok, refuse}
use k8labs.Base.{>>-eq-ok, refuse-eq-ok, Value, Items, Fields}
use k8labs.Lock.References.{mutable_reference, walk_mutable, walk_items, walk_fields, Step, key}
use k8labs.Lock.References.{index}

-- Every text of a value, keys excepted.
mutual
  pub texts : {F : Type 0} → Value F → List String
  texts (Value.text s) = s ∷ []
  texts (Value.mapping fs) = texts_of_fields fs
  texts (Value.sequence vs) = texts_of_items vs
  texts _ = []

  pub texts_of_items : {F : Type 0} → Items F → List String
  texts_of_items Items.last = []
  texts_of_items (Items.item v r) = texts v ++ texts_of_items r

  pub texts_of_fields : {F : Type 0} → Fields F → List String
  texts_of_fields Fields.empty = []
  texts_of_fields (Fields.entry k v r) = texts v ++ texts_of_fields r

abbrev pub Fixed : String → Type 0
Fixed s = mutable_reference s ≡ false

All-append_right :
    (P : String → Type 0) (left right : List String) → All P (left ++ right) → All P right
All-append_right P [] right h = h
All-append_right P (x ∷ left) right h = All-append_right P left right h.1

refuse-of_false : {E : Type 0} (b : Bool) (e : E) → b ≡ false → refuse b e ≡ ok tt
refuse-of_false b e h = ground arith

mutual
  unfolding walk_mutable walk_items walk_fields texts texts_of_items texts_of_fields

  walk_mutable-Fixed :
      {F : Type 0} (v : Value F) (place : List Step)
      → walk_mutable v place ≡ ok tt
      → All Fixed (texts v)
  walk_mutable-Fixed (Value.text s) place h = (refuse-eq-ok _ _ h, tt)
  walk_mutable-Fixed (Value.mapping fs) place h = walk_fields-Fixed fs place h
  walk_mutable-Fixed (Value.sequence vs) place h = walk_items-Fixed vs 0 place h
  walk_mutable-Fixed Value.null place h = tt
  walk_mutable-Fixed Value.other place h = tt
  walk_mutable-Fixed (Value.boolean b) place h = tt
  walk_mutable-Fixed (Value.int n) place h = tt
  walk_mutable-Fixed (Value.float x) place h = tt

  walk_items-Fixed :
      {F : Type 0} (vs : Items F) (i : ℕ) (place : List Step)
      → walk_items vs i place ≡ ok tt
      → All Fixed (texts_of_items vs)
  walk_items-Fixed Items.last i place h = tt
  walk_items-Fixed (Items.item v r) i place h =
      let (first, rest) = >>-eq-ok (walk_mutable v (index i ∷ place)) _ h in
      All-append Fixed (texts v) (texts_of_items r) (walk_mutable-Fixed v _ first)
        (walk_items-Fixed r (i + 1) place rest)

  walk_fields-Fixed :
      {F : Type 0} (fs : Fields F) (place : List Step)
      → walk_fields fs place ≡ ok tt
      → All Fixed (texts_of_fields fs)
  walk_fields-Fixed Fields.empty place h = tt
  walk_fields-Fixed (Fields.entry k v r) place h =
      let (first, rest) = >>-eq-ok (walk_mutable v (key k ∷ place)) _ h in
      All-append Fixed (texts v) (texts_of_fields r) (walk_mutable-Fixed v _ first)
        (walk_fields-Fixed r place rest)

mutual
  unfolding walk_mutable walk_items walk_fields texts texts_of_items texts_of_fields

  walk_mutable_of_Fixed :
      {F : Type 0} (v : Value F) (place : List Step)
      → All Fixed (texts v)
      → walk_mutable v place ≡ ok tt
  walk_mutable_of_Fixed (Value.text s) place h = refuse-of_false _ _ h.0
  walk_mutable_of_Fixed (Value.mapping fs) place h = walk_fields_of_Fixed fs place h
  walk_mutable_of_Fixed (Value.sequence vs) place h = walk_items_of_Fixed vs 0 place h
  walk_mutable_of_Fixed Value.null place h = refl
  walk_mutable_of_Fixed Value.other place h = refl
  walk_mutable_of_Fixed (Value.boolean b) place h = refl
  walk_mutable_of_Fixed (Value.int n) place h = refl
  walk_mutable_of_Fixed (Value.float x) place h = refl

  walk_items_of_Fixed :
      {F : Type 0} (vs : Items F) (i : ℕ) (place : List Step)
      → All Fixed (texts_of_items vs)
      → walk_items vs i place ≡ ok tt
  walk_items_of_Fixed Items.last i place h = refl
  walk_items_of_Fixed (Items.item v r) i place h = rw (
    walk_mutable_of_Fixed v (index i ∷ place)
        (All-append_left Fixed (texts v) (texts_of_items r) h),
    walk_items_of_Fixed r (i + 1) place (All-append_right Fixed (texts v) (texts_of_items r) h),
  )

  walk_fields_of_Fixed :
      {F : Type 0} (fs : Fields F) (place : List Step)
      → All Fixed (texts_of_fields fs)
      → walk_fields fs place ≡ ok tt
  walk_fields_of_Fixed Fields.empty place h = refl
  walk_fields_of_Fixed (Fields.entry k v r) place h = rw (
    walk_mutable_of_Fixed v (key k ∷ place) (All-append_left Fixed (texts v) (texts_of_fields r) h),
    walk_fields_of_Fixed r place (All-append_right Fixed (texts v) (texts_of_fields r) h),
  )

-- The walk passes exactly the values of which no text, however deep, is a mutable reference.
pub walk_mutable_iff :
    {F : Type 0} (v : Value F) (place : List Step)
    → (walk_mutable v place ≡ ok tt) ↔ All (λ s. mutable_reference s ≡ false) (texts v)
walk_mutable_iff v place = (walk_mutable-Fixed v place, walk_mutable_of_Fixed v place)
