-- ===== src/Plan/Metadata/Marked.antt =====
-- policy_governance.py: what it means that a metadata value holds a secret marker.
use cyber_hive.Prelude.{
  Bool-cases, nat_eq, string_eq, String, ◌≡◌, ◌↔◌, inl, inr, true, ◌&&◌, arith,
}
use cyber_hive.Plan.Metadata.{
  Value, null, text, number, scalar, mapping, sequence, Items, nil, cons, Fields, end, field,
  says_secret, is_label, contains_secret_marker, items_contain, fields_contain,
}

-- Somewhere inside, at any depth of mappings and sequences, a label names something secret.
mutual
  pub data Marked : Value → Type 0 where
    in_mapping : {fs : Fields} → MarkedFields fs → Marked (mapping fs)
    in_sequence : {xs : Items} → MarkedItems xs → Marked (sequence xs)

  pub data MarkedItems : Items → Type 0 where
    at_head : {x : Value} {xs : Items} → Marked x → MarkedItems (cons x xs)
    at_tail : {x : Value} {xs : Items} → MarkedItems xs → MarkedItems (cons x xs)

  pub data MarkedFields : Fields → Type 0 where
    labelled :
        {k : String} {v : Value} {fs : Fields}
        → is_label k ≡ true
        → says_secret v ≡ true
        → MarkedFields (field k v fs)
    nested : {k : String} {v : Value} {fs : Fields} → Marked v → MarkedFields (field k v fs)
    further : {k : String} {v : Value} {fs : Fields} → MarkedFields fs → MarkedFields (field k v fs)

mutual
  unfolding contains_secret_marker items_contain fields_contain

  sound : (v : Value) → contains_secret_marker v ≡ true → Marked v
  sound null h = cc
  sound (text s) h = cc
  sound (number n) h = cc
  sound (scalar s) h = cc
  sound (mapping fs) h = in_mapping (sound_fields fs h)
  sound (sequence xs) h = in_sequence (sound_items xs h)

  sound_items : (xs : Items) → items_contain xs ≡ true → MarkedItems xs
  sound_items nil h = cc
  sound_items (cons x xs) h = elim (Bool-cases (contains_secret_marker x)) [
    | inl here ↦ at_head (sound x here)
    | inr no_more ↦ at_tail (sound_items xs (ground arith))
  ]

  sound_fields : (fs : Fields) → fields_contain fs ≡ true → MarkedFields fs
  sound_fields end h = cc
  sound_fields (field k v fs) h = elim (Bool-cases (is_label k && says_secret v)) [
    | inl here ↦ labelled (ground arith) (ground arith)
    | inr other ↦ elim (Bool-cases (contains_secret_marker v)) [
      | inl deep ↦ nested (sound v deep)
      | inr shallow ↦ further (sound_fields fs (ground arith))
    ]
  ]

mutual
  unfolding contains_secret_marker items_contain fields_contain

  complete : {v : Value} → Marked v → contains_secret_marker v ≡ true
  complete (in_mapping m) = complete_fields m
  complete (in_sequence m) = complete_items m

  complete_items : {xs : Items} → MarkedItems xs → items_contain xs ≡ true
  complete_items (at_head m) = rw (complete m)
  complete_items (at_tail {x = x} m) = rw (complete_items m) (ground arith)

  complete_fields : {fs : Fields} → MarkedFields fs → fields_contain fs ≡ true
  complete_fields (labelled l s) = rw (l, s)
  complete_fields (nested m) = rw (complete m) (ground arith)
  complete_fields (further m) = rw (complete_fields m) (ground arith)

-- The search finds a marker exactly when, at some depth of the nested mappings and sequences, a field
-- labelled as sensitivity or classification says secret, in letters of either case.
pub contains_secret_marker-Marked : (v : Value) → (contains_secret_marker v ≡ true) ↔ Marked v
contains_secret_marker-Marked v = (sound v, complete)
