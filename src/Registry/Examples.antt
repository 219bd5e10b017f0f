-- ===== src/Registry/Examples.antt =====
-- A second node registered beside the first, and the registrations that are refused.
use aso_node_recovery.Prelude.{
  Listed, Listed-put, [], get, none, put, refl, select, some, strip, ℕ, ◌≡◌,
}
use aso_node_recovery.Errors.{Error, err, ok}
use aso_node_recovery.Models.NodeEnums.{SshAuthMethod}
use aso_node_recovery.Registry.Forms.{NodeForm}
use aso_node_recovery.Registry.Nodes.{
  check_form, create_node, persist_node, refresh_node, register_node,
}
use aso_node_recovery.Registry.Rows.{Distinct, Distinct-put, Own, Own-put}
use aso_node_recovery.Registry.Unique.{
  IsRegistry, lower_name, register_node-IsRegistry, server_identity,
}
use aso_node_recovery.Replacement.Access.{utc_now}
use aso_node_recovery.Replacement.SampleWorld.{jobless_db, no_rows, plain_node, plain_outside}
use aso_node_recovery.Replacement.Samples.{old_server}
use aso_node_recovery.Replacement.Trigger.{last}
use aso_node_recovery.Runtime.{Db, World, session, ◌>>=◌}

module _ {R : Type 0} where
  empty_Listed : Listed (no_rows {R = R})
  empty_Listed k r h = absurd (cc h)

  empty_Own : (id : R → ℕ) → Own id (no_rows {R = R})
  empty_Own id k r h = absurd (cc h)

  empty_Distinct {ℓ} : {K : Type ℓ} (column : R → K) → Distinct column (no_rows {R = R})
  empty_Distinct column j k r s h g same = absurd (cc h)

abbrev one_node : Db
one_node = record jobless_db { vps = put no_rows 10 old_server }

one_node-IsRegistry : IsRegistry plain_outside one_node
one_node-IsRegistry = record {
  nodes_listed = Listed-put no_rows 1 plain_node empty_Listed;
  vps_listed = Listed-put no_rows 10 old_server empty_Listed;
  nodes_own = Own-put (λ node. node.id) no_rows plain_node (empty_Own (λ node. node.id));
  vps_own = Own-put (λ vps. vps.id) no_rows old_server (empty_Own (λ vps. vps.id));
  masters =
      Distinct-put (λ node. node.master_node_id) no_rows 1 plain_node
        (empty_Distinct (λ node. node.master_node_id)) (λ j r h same. absurd (cc h));
  names =
      Distinct-put (lower_name plain_outside) no_rows 1 plain_node
        (empty_Distinct (lower_name plain_outside)) (λ j r h same. absurd (cc h));
  servers =
      Distinct-put server_identity no_rows 10 old_server (empty_Distinct server_identity)
        (λ j r h same. absurd (cc h));
}

abbrev second_form : NodeForm
second_form = record {
  name = " node-2 ";
  provider_key = "hetzner";
  master_node_id = "8";
  current_host = "198.51.100.8";
  current_port = 2053;
  provider_server_id = "srv-2";
  ssh_username = "root";
  ssh_port = 22;
  ssh_auth_method = SshAuthMethod.private_key;
  ssh_secret_ref = "ssh-ref-2";
  ssh_public_key = some "ssh-ed25519 BBBB";
  provider_host = none;
  region = none;
  server_type = none;
  provider_image = none;
  panel_base_path = none;
  api_token_ref = none;
}

abbrev start : World
start = record { db = one_node; effects = []; calls = 0 }

register_node-IsRegistry_example :
    IsRegistry plain_outside (register_node plain_outside second_form start).1.db
register_node-IsRegistry_example =
    register_node-IsRegistry plain_outside second_form start one_node-IsRegistry

the_second_node_is_created : (register_node plain_outside second_form start).0 ≡ ok 501
unfolding register_node check_form session persist_node create_node utc_now select strip ◌>>=◌
the_second_node_is_created = refl

-- The same server under another name.
a_server_is_registered_once :
    (register_node plain_outside (record second_form { provider_server_id = "srv-old" }) start).0
    ≡ err Error.value_error
unfolding register_node check_form session persist_node create_node utc_now select strip ◌>>=◌
a_server_is_registered_once = refl

-- The first node with another port: its host is renewed.
abbrev again : NodeForm
again = record second_form {
  name = "node-1";
  master_node_id = "7";
  provider_server_id = "srv-old";
  current_port = 2054;
}

a_node_is_refreshed :
    get (register_node plain_outside again start).1.db.nodes 1
    ≡ some (record plain_node { current_host = "198.51.100.8"; current_port = 2054 })
unfolding register_node check_form session persist_node refresh_node select strip ◌>>=◌ last
a_node_is_refreshed = refl
