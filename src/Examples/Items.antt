-- ===== src/Examples/Items.antt =====
-- inventory.py at concrete inputs: a speaker on the private network.
use cyber_hive.Prelude.{nat_eq, string_eq, ok, ◌≡◌, refl, true, false, none, List, [], ◌∷◌}
use cyber_hive.Prelude.Dict.{get, put}
use cyber_hive.Inventory.{
  indexed, allowed, only_private, internal, InventoryItem, validate, add, upsert, find, set_enabled,
  Edit, adds, upserts, sets_enabled, step, run,
}
use cyber_hive.Inventory.Valid.{IsValid, Sound, run-IsValid}

abbrev pub speaker : InventoryItem
speaker = record {
  id = "spk_1";
  kind = "speaker";
  name = "kitchen";
  enabled = true;
  indexing = indexed;
  access = allowed;
  exposure = only_private;
  sensitivity = internal;
  capabilities = record { name = "audio"; permissions = "play" ∷ [] } ∷ [];
  owner = none;
}

abbrev edits : List Edit
edits = adds speaker ∷ adds speaker ∷ sets_enabled "spk_1" false ∷ upserts speaker ∷ []

found_speaker : find (run [] edits) "spk_1" ≡ ok speaker
unfolding run step find get put add upsert set_enabled validate
found_speaker = refl

run-IsValid_example : (speaker.id ≡ "spk_1") × IsValid speaker
run-IsValid_example = run-IsValid edits "spk_1" speaker found_speaker

no_items-Sound : Sound []
unfolding get
no_items-Sound id item h = cc
