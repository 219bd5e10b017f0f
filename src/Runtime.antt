-- ===== src/Runtime.antt =====
-- The state of the service and the monad of its methods: the database, the calls that changed
-- something outside, and the number of questions asked so far. A method may raise; what was
-- committed or called before that stays.
pub mod Wp
pub mod Preserves
pub mod Quiet
pub mod Forward
pub mod Reading
pub mod Calls
pub mod Always
use aso_node_recovery.Prelude.{Bool, List, String, Table, [], false, put, true, ℕ, ◌++◌, ◌+◌, ◌∷◌}
use aso_node_recovery.Errors.{Error, Result, err, ok}
use aso_node_recovery.Models.Rows.{
  Deployment, Event, Node, NodeCheck, NodeCredential, Provider, ReplacementJob, VpsInstance,
}
use aso_node_recovery.Outside.{Adapter, CreateServerRequest, MasterNodeMutation}

-- A call that changes the outside, recorded when it is made, whatever its answer.
pub data Effect : Type 0 where
  create_server : Adapter → CreateServerRequest → Effect
  delete_server : Adapter → String → Effect
  update_node : ℕ → MasterNodeMutation → Effect
  write_secret : String → String → Effect
  delete_secret : String → Effect
  bootstrap install rollback : String → Effect

pub record Db : Type 0 where
  pub jobs : Table ReplacementJob
  pub nodes : Table Node
  pub vps : Table VpsInstance
  pub deployments : Table Deployment
  pub credentials : Table NodeCredential
  pub providers : Table Provider
  pub events : List Event
  pub checks : List NodeCheck

pub record World : Type 0 where
  pub db : Db
  pub effects : List Effect
  pub calls : ℕ

abbrev pub Exec : Type 0 → Type 0
Exec A = World → Result A × World

unfoldable pub pure : {A : Type 0} → A → Exec A
pure a w = (ok a, w)

unfoldable pub raise : {A : Type 0} → Error → Exec A
raise e w = (err e, w)

abbrev pub continue : {A B : Type 0} → Result A → World → (A → Exec B) → Result B × World
continue (ok a) w f = f a w
continue (err e) w f = (err e, w)

unfoldable pub lift : {A : Type 0} → Result A → Exec A
lift r w = (r, w)

-- Ask a question: the answer depends on how many were asked before.
unfoldable pub ask : {A : Type 0} → (ℕ → Result A) → Exec A
ask question w = (question w.calls, record w { calls = w.calls + 1 })

-- Record a call that changes the outside.
unfoldable pub call : Effect → Exec (Unit {0})
call e w = (ok tt, record w { effects = w.effects ++ e ∷ [] })

abbrev pub restore : {A : Type 0} → Db → Result A × World → Result A × World
restore db (ok a, w) = (ok a, w)
restore db (err e, w) = (err e, record w { db = db })

-- `async with database.session()`: what an exception leaves uncommitted is rolled back.
unfoldable pub session : {A : Type 0} → Exec A → Exec A
session body w = restore w.db (body w)

-- `try: ... except: ...` around a block.
abbrev pub handle : {A : Type 0} → Result A × World → (Error → Exec A) → Result A × World
handle (ok a, w) handler = (ok a, w)
handle (err e, w) handler = handler e w

unfoldable pub try_catch : {A : Type 0} → Exec A → (Error → Exec A) → Exec A
try_catch body handler w = handle (body w) handler

unfoldable pub when : Bool → Exec (Unit {0}) → Exec (Unit {0})
unfolding pure
when true m = m
when false m = pure tt

-- Rows written back to the database.
unfoldable pub modify : (Db → Db) → Exec (Unit {0})
modify f w = (ok tt, record w { db = f w.db })

unfoldable pub gets : {A : Type 0} → (Db → A) → Exec A
gets f w = (ok (f w.db), w)

unfoldable pub save_job : ReplacementJob → Exec (Unit {0})
unfolding modify
save_job job = modify λ db. record db { jobs = put db.jobs job.id job }

unfoldable pub save_provider : Provider → Exec (Unit {0})
unfolding modify
save_provider provider =
    modify λ db. record db { providers = put db.providers provider.id provider }

unfoldable pub save_node : Node → Exec (Unit {0})
unfolding modify
save_node node = modify λ db. record db { nodes = put db.nodes node.id node }

unfoldable pub save_vps : VpsInstance → Exec (Unit {0})
unfolding modify
save_vps vps = modify λ db. record db { vps = put db.vps vps.id vps }

unfoldable pub save_deployment : Deployment → Exec (Unit {0})
unfolding modify
save_deployment d = modify λ db. record db { deployments = put db.deployments d.id d }

unfoldable pub save_credential : NodeCredential → Exec (Unit {0})
unfolding modify
save_credential c = modify λ db. record db { credentials = put db.credentials c.node_id c }

-- Opening this opens the primitive actions above too.
infixl 5 ◌>>=◌ ◌>>◌
unfoldable pub ◌>>=◌ : {A B : Type 0} → Exec A → (A → Exec B) → Exec B
unfolding pure raise lift ask call when gets modify save_job save_provider save_node save_vps
    save_deployment save_credential
◌>>=◌ m f w = let (r, w') = m w in continue r w' f

abbrev pub ◌>>◌ : {A B : Type 0} → Exec A → Exec B → Exec B
m >> n = m >>= λ _. n
