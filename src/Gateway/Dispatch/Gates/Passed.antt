-- ===== src/Gateway/Dispatch/Gates/Passed.antt =====
-- What gets through `dispatch` of internal/gateway/gateway.go: nothing but its gates holds it back.
use inferbus.Base.{
  string_eq, Bool, Option, String, false, inl, inr, none, refl, some, true, ℕ, ◌==◌, ◌≡◌, ◌⊎◌,
}
use inferbus.Gateway.Iam.{key_id}
use inferbus.Gateway.Admission.{AdmissionConfig, Cache, Reading}
use inferbus.Gateway.Params.{merge_params, merged}
use inferbus.Gateway.Dispatch.{
  Arrival, Checked, Gateway, Kind, Published, admit, and_then, budget_exceeded, chat, checks,
  dispatch, dispatch_checked, embed, merged_body, or_refuse, parse_model, pass, publish, read_all,
  streams_wrongly, unless,
}
use inferbus.Gateway.Dispatch.Gates.{IsAllowed, admits}

pub shape_fine :
    (k : Kind) (stream : Bool) → (k ≡ chat) ⊎ (stream ≡ false) → streams_wrongly k stream ≡ false
unfolding streams_wrongly
shape_fine k stream (inl is_chat) = rw is_chat refl
shape_fine chat stream (inr plain) = refl
shape_fine embed stream (inr plain) = plain

pub parse_fine :
    (model : String) (stream : Bool)
    → (model == "") ≡ false
    → parse_model (some (model, stream)) ≡ pass (model, stream)
unfolding parse_model
parse_fine model stream named = rw named refl

checks_pass :
    (g : Gateway) (a : Arrival) (c : Checked)
    → IsAllowed g a c
    → budget_exceeded g.iam c.key ≡ false
    → checks g a ≡ pass c
unfolding checks and_then unless or_refuse read_all
checks_pass g a c h in_budget =
    rw
      (
        h.ready,
        h.authentic,
        h.whole,
        h.probed,
        parse_fine c.alias c.stream h.named,
        shape_fine a.kind c.stream h.shaped,
        h.resolves,
        h.listed,
        in_budget,
      )
      refl

admit_pass :
    (o : Option AdmissionConfig) (r : Reading) (model : String) (cache : Cache)
    → admits o r model cache ≡ true
    → (admit o r model cache).0 ≡ pass tt
unfolding admit unless
admit_pass none r model cache h = refl
admit_pass (some cfg) r model cache h = rw h refl

-- What `publish` sends.
abbrev pub published : Arrival → Checked → String → ℕ → Published
published a c body seq = record {
  model = c.resolution.target;
  org = c.key.org;
  project = c.key.project;
  key = key_id c.key;
  alias = c.alias;
  req_id = a.req_id;
  kind = a.kind;
  deadline = a.deadline;
  body = body;
  seq = seq;
  stream = c.stream;
}

-- A request that is allowed its alias, within its budget and admitted, whose body merges, is
-- published with the merged body for the alias's target, if the gateway can listen and the queue
-- acknowledges it.
pub dispatch_passes :
    (g : Gateway) (a : Arrival) (cache : Cache) (c : Checked) (body : String) (seq : ℕ)
    → IsAllowed g a c
    → budget_exceeded g.iam c.key ≡ false
    → admits g.admission a.reading c.resolution.target cache ≡ true
    → merge_params g.json c.body c.resolution.params ≡ merged body
    → a.listens ≡ true
    → a.acked ≡ some seq
    → (dispatch g a cache).0 ≡ pass (published a c body seq)
unfolding dispatch dispatch_checked publish and_then unless or_refuse merged_body
dispatch_passes g a cache c body seq h in_budget admitted merges listens acked =
    rw
      (
        checks_pass g a c h in_budget,
        admit_pass g.admission a.reading c.resolution.target cache admitted,
        merges,
        listens,
        acked,
      )
      refl
