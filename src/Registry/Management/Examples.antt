-- ===== src/Registry/Management/Examples.antt =====
-- A node and its provider are removed, in the order that the service accepts.
use aso_node_recovery.Prelude.{
  List, [], get, is_none, is_some, none, refl, select, some, strip, true, ◌∷◌, ◌≡◌,
}
use aso_node_recovery.Models.EventEnums.{SecretReferenceBackend}
use aso_node_recovery.Models.NodeEnums.{ProviderType, SshAuthMethod}
use aso_node_recovery.Registry.Forms.{NodeForm, ProviderForm}
use aso_node_recovery.Registry.Management.{
  discard_all, discard_old, drop_node, drop_provider, remove_node_from_registry,
  remove_provider_from_registry, rename_node, without_node, without_provider,
}
use aso_node_recovery.Registry.Management.History.{Operation, operate_all, operate_all-IsLinked}
use aso_node_recovery.Registry.Management.Linked.{IsLinked}
use aso_node_recovery.Registry.Nodes.{check_form, create_node, persist_node, register_node}
use aso_node_recovery.Registry.Providers.{persist_provider, register_provider}
use aso_node_recovery.Replacement.Access.{utc_now}
use aso_node_recovery.Replacement.SampleWorld.{jobless_db, no_rows, plain_outside}
use aso_node_recovery.Replacement.Trigger.{last}
use aso_node_recovery.Runtime.{Effect, World, session, try_catch, ◌>>=◌}

empty-IsLinked : IsLinked (record jobless_db {
  nodes = no_rows;
  vps = no_rows;
  credentials = no_rows;
  providers = no_rows;
})
empty-IsLinked = record {
  jobs_listed = λ k r h. absurd (cc h);
  nodes_listed = λ k r h. absurd (cc h);
  vps_listed = λ k r h. absurd (cc h);
  credentials_own = λ k r h. absurd (cc h);
  node_provider = λ k r h. absurd (cc h);
  vps_provider = λ k r h. absurd (cc h);
  vps_node = λ k r h. absurd (cc h);
  job_node = λ k r h. absurd (cc h);
  credential_node = λ k r h. absurd (cc h);
  check_node = tt;
  event_node = tt;
}

abbrev empty_world : World
empty_world = record {
  db = record jobless_db {
    nodes = no_rows;
    vps = no_rows;
    credentials = no_rows;
    providers = no_rows;
  };
  effects = [];
  calls = 0;
}

abbrev a_provider : ProviderForm
a_provider = record {
  key = " hetzner ";
  display_name = "Cloud";
  provider_type = ProviderType.hetzner;
  credential_ref = "token-ref";
  default_region = none;
  default_server_type = none;
  default_image = none;
  credential_backend = SecretReferenceBackend.file;
}

abbrev a_node : NodeForm
a_node = record {
  name = "node-1";
  provider_key = "hetzner";
  master_node_id = "7";
  current_host = "198.51.100.7";
  current_port = 2053;
  provider_server_id = "srv-old";
  ssh_username = "root";
  ssh_port = 22;
  ssh_auth_method = SshAuthMethod.private_key;
  ssh_secret_ref = "ssh-ref";
  ssh_public_key = some "ssh-ed25519 AAAA";
  provider_host = none;
  region = none;
  server_type = none;
  provider_image = none;
  panel_base_path = none;
  api_token_ref = none;
}

-- The provider gets the id 500, the node 502.
abbrev operations : List Operation
operations =
    Operation.enroll_provider a_provider
    ∷ Operation.enroll_node a_node
    ∷ Operation.forget_provider 500
    ∷ Operation.retitle_node 502 "node-2"
    ∷ Operation.forget_node 502
    ∷ []

operate_all-IsLinked_example : IsLinked (operate_all plain_outside operations empty_world).db
operate_all-IsLinked_example =
    operate_all-IsLinked plain_outside operations empty_world empty-IsLinked

-- The provider was kept, since it had a node, and the secret of the node was deleted.
the_provider_stays :
    let w : World = operate_all plain_outside operations empty_world in
    (is_some (get w.db.providers 500) ≡ true)
    × (is_none (get w.db.nodes 502) ≡ true)
    × (w.effects ≡ Effect.delete_secret "ssh-ref" ∷ [])
unfolding operate_all register_provider persist_provider register_node check_form persist_node
    create_node utc_now remove_provider_from_registry drop_provider without_provider rename_node
    remove_node_from_registry drop_node without_node discard_old discard_all session try_catch
    select last strip ◌>>=◌
the_provider_stays = (refl, refl, refl)
