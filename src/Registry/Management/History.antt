-- ===== src/Registry/Management/History.antt =====
-- Runs of the operators' changes of the registry, in any order, refused ones among them.
use aso_node_recovery.Prelude.{List, String, [], ℕ, ◌∷◌}
use aso_node_recovery.Outside.{Outside}
use aso_node_recovery.Registry.Forms.{NodeForm, ProviderForm}
use aso_node_recovery.Registry.Management.{
  remove_node_from_registry, remove_provider_from_registry, rename_node, rename_provider,
  replace_provider_token,
}
use aso_node_recovery.Registry.Management.Changed.{
  Preserves-remove_node, Preserves-remove_provider, Preserves-rename_node,
  Preserves-rename_provider, Preserves-replace_provider_token,
}
use aso_node_recovery.Registry.Management.Linked.{IsLinked}
use aso_node_recovery.Registry.Management.Registered.{
  Preserves-register_node, Preserves-register_provider,
}
use aso_node_recovery.Registry.Nodes.{register_node}
use aso_node_recovery.Registry.Providers.{register_provider}
use aso_node_recovery.Runtime.{Exec, World, pure, ◌>>◌}
use aso_node_recovery.Runtime.Preserves.{Preserves, preserves_rules}

pub data Operation : Type 0 where
  enroll_provider : ProviderForm → Operation
  enroll_node : NodeForm → Operation
  retitle_provider : ℕ → String → Operation
  rotate_token : ℕ → String → Operation
  forget_provider : ℕ → Operation
  retitle_node : ℕ → String → Operation
  forget_node : ℕ → Operation

module _ (out : Outside) where
  abbrev pub operate : Operation → Exec (Unit {0})
  operate (Operation.enroll_provider form) = do register_provider out form; pure tt
  operate (Operation.enroll_node form) = do register_node out form; pure tt
  operate (Operation.retitle_provider id name) = rename_provider id name
  operate (Operation.rotate_token id ref) = replace_provider_token out id ref
  operate (Operation.forget_provider id) = remove_provider_from_registry out id
  operate (Operation.retitle_node id name) = rename_node out id name
  operate (Operation.forget_node id) = remove_node_from_registry out id

  -- What a call that raises has done stays.
  unfoldable pub operate_all : List Operation → World → World
  operate_all [] w = w
  operate_all (operation ∷ operations) w = operate_all operations (operate operation w).1

  Preserves-operate : (operation : Operation) → Preserves IsLinked (operate operation)
  Preserves-operate (Operation.enroll_provider form) =
      search (preserves_rules, Preserves-register_provider)
  Preserves-operate (Operation.enroll_node form) = search (preserves_rules, Preserves-register_node)
  Preserves-operate (Operation.retitle_provider id name) = Preserves-rename_provider id name
  Preserves-operate (Operation.rotate_token id ref) = Preserves-replace_provider_token out id ref
  Preserves-operate (Operation.forget_provider id) = Preserves-remove_provider out id
  Preserves-operate (Operation.retitle_node id name) = Preserves-rename_node out id name
  Preserves-operate (Operation.forget_node id) = Preserves-remove_node out id

  -- No run of the operators' changes leaves a reference without its row, in whatever order they
  -- come, with those that are refused or fail half-way: every node and every server has its
  -- provider, and every server, job, credential, check and event that names a node has that node.
  -- It assumes that this was so before.
  pub operate_all-IsLinked :
      (operations : List Operation) (w : World)
      → IsLinked w.db
      → IsLinked (operate_all operations w).db
  unfolding operate_all
  operate_all-IsLinked [] w i = i
  operate_all-IsLinked (operation ∷ operations) w i =
      operate_all-IsLinked operations _ ((Preserves-operate operation).leads w i)
