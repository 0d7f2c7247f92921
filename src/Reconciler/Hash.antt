-- ===== src/Reconciler/Hash.antt =====
-- The hashes that restart the pods: HashOfData of internal/generator/helpers.go and secretHash of
-- internal/controller/dataprepperpipeline_controller.go. `digest` is SHA-256 in hexadecimal digits,
-- of which 16 are kept, as a function of all that was written.
use Prim.Native.Nat.{Ordering}
use Prim.Native.String.{compare}
use dataprepper_operator.Base.{
  String, ◌<>◌, Bool, true, false, if◌then◌else◌, Option, none, some, List, [], ◌∷◌,
}
use dataprepper_operator.Base.Dict.{Dict}
use dataprepper_operator.Api.Pipeline.{DataPrepperPipelineSpec}
use dataprepper_operator.Generator.Credentials.{referenced_secrets}

abbrev pub comes_first : Ordering → Bool
comes_first Ordering.gt = false
comes_first _ = true

-- The entries by key, which stand for the sorted keys and the values that are read at them.
unfoldable pub insert_entry : (String × String) → Dict String → Dict String
insert_entry e [] = e ∷ []
insert_entry e (f ∷ fs) =
    let rest = insert_entry e fs in if comes_first (compare e.0 f.0) then e ∷ f ∷ fs else f ∷ rest

unfoldable pub sort_entries : Dict String → Dict String
unfolding insert_entry
sort_entries [] = []
sort_entries (e ∷ es) = insert_entry e (sort_entries es)

-- What is written to the hash: each key with its value.
unfoldable pub write_entries : Dict String → String
write_entries [] = ""
write_entries ((k, v) ∷ es) = k <> v <> write_entries es

module _ (digest : String → String) where
  unfoldable pub hash_of_data : Dict String → String
  unfolding sort_entries write_entries
  hash_of_data entries = digest (write_entries (sort_entries entries))

  module _ (get_secret : String → Option (Dict String)) where
    -- The loop over the references; a secret that cannot be read is left out.
    unfoldable pub write_secrets : List String → String
    unfolding sort_entries write_entries
    write_secrets [] = ""
    write_secrets (ref ∷ refs) =
        let rest = write_secrets refs in
        elim (get_secret ref) [
          | none ↦ rest
          | some entries ↦ write_entries (sort_entries entries) <> rest
        ]

    abbrev hash_of_refs : List String → String
    hash_of_refs [] = ""
    hash_of_refs (ref ∷ refs) = digest (write_secrets (ref ∷ refs))

    unfoldable pub secret_hash : DataPrepperPipelineSpec → String
    unfolding write_secrets
    secret_hash spec = hash_of_refs (referenced_secrets spec.pipelines)
