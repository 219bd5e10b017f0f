-- ===== src/Registry/Management/Discards.antt =====
-- The deletion of secrets writes to no table: every invariant of the database is kept.
use aso_node_recovery.Prelude.{List, Option, String, [], none, some, ◌∷◌}
use aso_node_recovery.Errors.{Error}
use aso_node_recovery.Models.EventEnums.{SecretReferenceBackend}
use aso_node_recovery.Outside.{Outside}
use aso_node_recovery.Registry.Management.{
  SecretRef, delete_managed, discard_all, discard_old, retained,
}
use aso_node_recovery.Runtime.{Db}
use aso_node_recovery.Runtime.Preserves.{
  Preserves, Preserves-bind, Preserves-pure, Preserves-raise, preserves_rules,
}

module _ (out : Outside) {J : Db → Type 0} where
  Preserves-retained : (e : Error) → Preserves J (retained out e)
  Preserves-retained Error.configuration_error = Preserves-pure tt
  Preserves-retained e = Preserves-raise e

  Preserves-delete_managed : (reference : String) → Preserves J (delete_managed out reference)
  Preserves-delete_managed reference = search (preserves_rules, Preserves-retained)

  pub Preserves-discard_old :
      (backend : Option SecretReferenceBackend) (reference keep : Option String)
      → Preserves J (discard_old out (backend, reference) keep)
  unfolding discard_old
  Preserves-discard_old (some SecretReferenceBackend.file) (some reference) keep =
      search (preserves_rules, Preserves-delete_managed)
  Preserves-discard_old (some SecretReferenceBackend.file) none keep = Preserves-pure tt
  Preserves-discard_old (some _) reference keep = Preserves-pure tt
  Preserves-discard_old none reference keep = Preserves-pure tt

  pub Preserves-discard_all : (secrets : List SecretRef) → Preserves J (discard_all out secrets)
  unfolding discard_all
  Preserves-discard_all [] = Preserves-pure tt
  Preserves-discard_all ((backend, reference) ∷ secrets) =
      Preserves-bind _ _ (Preserves-discard_old backend reference none)
        (λ _. Preserves-discard_all secrets)
