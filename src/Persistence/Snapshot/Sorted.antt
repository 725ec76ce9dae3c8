-- ===== src/Persistence/Snapshot/Sorted.antt =====
-- The order that `json.dumps(..., sort_keys=True)` writes the keys of a dict in, which is the order
-- they are read back in. `less` is the order of Python's texts.
use cognitive_evolve.Prelude.{
  String, ◌≡◌, refl, subst, sym, ◌∙◌, Bool, true, false, Bool-cases, inl, inr, Option, none, some,
  ◌==◌, eq_iff, if◌then◌else◌,
}
use cognitive_evolve.Json.{
  Value, null, bool, int, text, array, object, Items, nil, cons, Fields, end, field, get_field,
}

module _ (less : String → String → Bool) where
  -- A key before the greater ones.
  unfoldable pub insert_field : String → Value → Fields → Fields
  insert_field k v end = field k v end
  insert_field k v (field j w d) =
      if less j k then field j w (insert_field k v d) else field k v (field j w d)

  unfoldable mutual
    pub sorted_value : Value → Value
    sorted_value null = null
    sorted_value (bool b) = bool b
    sorted_value (int n) = int n
    sorted_value (text s) = text s
    sorted_value (array vs) = array (sorted_items vs)
    sorted_value (object d) = object (sorted_fields d)

    pub sorted_items : Items → Items
    sorted_items nil = nil
    sorted_items (cons v vs) = cons (sorted_value v) (sorted_items vs)

    pub sorted_fields : Fields → Fields
    sorted_fields end = end
    sorted_fields (field k v d) = insert_field k (sorted_value v) (sorted_fields d)

  -- What is read back of a payload that is written with or without `sort_keys`.
  unfoldable pub written_order : (sort_keys : Bool) → Value → Value
  written_order sort_keys v = if sort_keys then sorted_value v else v

  unfoldable pub sorted_option : Option Value → Option Value
  sorted_option none = none
  sorted_option (some v) = some (sorted_value v)

  module _ (irreflexive : (k : String) → less k k ≡ false) where
    distinct : (j k u : String) → less j k ≡ true → (j == u) ≡ true → (k == u) ≡ false
    distinct j k u e f = elim (Bool-cases (k == u)) [
      | inr g ↦ g
      | inl g ↦
          let same : j ≡ k = (eq_iff j u).0 f ∙ sym ((eq_iff k u).0 g) in
          let here : less k k ≡ true = subst (λ i. less i k ≡ true) same e in
          let never = irreflexive k in cc
    ]

    get_field-insert_field :
        (k : String) (v : Value) (d : Fields) (u : String)
        → get_field (insert_field k v d) u ≡ (if k == u then some v else get_field d u)
    unfolding get_field insert_field
    get_field-insert_field k v end u = refl
    get_field-insert_field k v (field j w d) u = elim (Bool-cases (less j k)) [
      | inr e ↦ rw e refl
      | inl e ↦ rw e (elim (Bool-cases (j == u)) [
        | inl f ↦ rw (f, distinct j k u e f) refl
        | inr f ↦ rw f (get_field-insert_field k v d u)
      ])
    ]

    -- A lookup finds the same value, in its own sorted order.
    pub get_field-sorted_fields :
        (d : Fields) (u : String) → get_field (sorted_fields d) u ≡ sorted_option (get_field d u)
    unfolding get_field sorted_fields sorted_option
    get_field-sorted_fields end u = refl
    get_field-sorted_fields (field k v d) u =
        get_field-insert_field k (sorted_value v) (sorted_fields d) u ∙ elim (Bool-cases (k == u)) [
          | inl e ↦ rw e refl
          | inr e ↦ rw e (get_field-sorted_fields d u)
        ]
