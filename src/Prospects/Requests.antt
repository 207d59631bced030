-- ===== src/Prospects/Requests.antt =====
-- The requests that src/prospect-discovery/prospect-discovery.controller.ts and the queue's worker pass
-- to the service, and a history of them.
use zex_platform.Base.{ℕ, Text, Bool, Option, List, [], ◌∷◌}
use zex_platform.Store.{Db, Env}
use zex_platform.Prospects.Decisions.{approve_candidate, reject_candidate}
use zex_platform.Prospects.Create.{create_approved_candidate}
use zex_platform.Prospects.Discovery.{start_discovery, execute_discovery}

pub data Request : Type 0 where
  starts : (brain_id : Text) (limit : Option ℕ) (sync : Bool) → Request
  executes : (run_id : Text) (limit : Option ℕ) → Request
  approves rejects creates : (candidate_id : Text) → Request

-- The database after a request of a tenant, whether it returned or threw.
unfoldable pub serve : Env → Text → Text → Request → Db → Db
serve env tenant by (starts b limit sync) db = (start_discovery env tenant b limit sync by db).1
serve env tenant by (executes r limit) db = (execute_discovery env tenant r limit by db).1
serve env tenant by (approves c) db = (approve_candidate env tenant c by db).1
serve env tenant by (rejects c) db = (reject_candidate env tenant c by db).1
serve env tenant by (creates c) db = (create_approved_candidate env tenant c by db).1

-- Who asks for what: the tenant, the caller and the request.
pub record Asked : Type 0 where
  pub tenant : Text
  pub by : Text
  pub request : Request

unfoldable pub serve_all : Env → List Asked → Db → Db
serve_all env [] db = db
serve_all env (a ∷ later) db = serve_all env later (serve env a.tenant a.by a.request db)
