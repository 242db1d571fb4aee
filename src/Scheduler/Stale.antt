-- ===== src/Scheduler/Stale.antt =====
-- trie_remote/scheduler.py: stale tickets, `_prune_stale_tickets` and `_supersede_queued_session`.
use remote_worktree_runner.Errors.{Error}
use remote_worktree_runner.JobStore.State.{is_final}
use remote_worktree_runner.JobStore.{Store, exists, status, request_cancel}
use remote_worktree_runner.Scheduler.Tickets.{Ticket, TicketFile, Queue}
use remote_worktree_runner.Prelude.{
  Bool, true, false, not, ◌||◌, Option, none, some, [], ◌∷◌, Text, text_eq, Result, ok, err, ◌>>=◌,
}

-- `self.worker_inactive(job_id)`, where one is given.
abbrev pub is_inactive : Option (Text → Bool) → Text → Bool
is_inactive none job_id = false
is_inactive (some inactive) job_id = inactive job_id

stale_in : Option (Text → Bool) → Store → Text → Bool → Result Error Bool
stale_in worker_inactive s job_id false = ok true
stale_in worker_inactive s job_id true = do
  st ← status job_id s
  ok (is_final st.state || is_inactive worker_inactive job_id)

unfoldable pub ticket_is_stale : Option (Text → Bool) → Option Store → Text → Result Error Bool
unfolding stale_in
ticket_is_stale worker_inactive none job_id = ok false
ticket_is_stale worker_inactive (some s) job_id = do
  there ← exists job_id s
  stale_in worker_inactive s job_id there

-- str(ticket.get("job_id", ""))
abbrev pub job_of : Ticket → Text
job_of t = elim t.job_id [ none ↦ [] | some j ↦ j ]

keep_file : TicketFile → Result Error (Unit {0}) × Queue → Result Error (Unit {0}) × Queue
keep_file f (r, q) = (r, f ∷ q)

-- An unreadable ticket is unlinked, and so is a stale one. An exception of the staleness test
-- leaves the rest of the queue as it is.
unfoldable pub prune : Option (Text → Bool) → Option Store → Queue → Result Error (Unit {0}) × Queue
unfolding keep_file
prune worker_inactive store [] = (ok tt, [])
prune worker_inactive store (f ∷ q) = elim f.body [
  | none ↦ prune worker_inactive store q
  | some t ↦ elim (ticket_is_stale worker_inactive store (job_of t)) [
    | err e ↦ (err e, f ∷ q)
    | ok true ↦ prune worker_inactive store q
    | ok false ↦ keep_file f (prune worker_inactive store q)
  ]
]

-- older_job == job_id or ticket.get("session") != session
abbrev pub is_other : Text → Text → Ticket → Bool
is_other job_id session t =
    text_eq (job_of t) job_id || elim t.session [ none ↦ true | some s ↦ not (text_eq s session) ]

abbrev pub Superseded : Type 0
Superseded = Result Error (Unit {0}) × Queue × Store

keep_ticket : TicketFile → Superseded → Superseded
keep_ticket f (r, q, s) = (r, f ∷ q, s)

-- The loop of `_supersede_queued_session` over the tickets, with the store that it writes to.
unfoldable pub supersede_tickets : Option (Text → Bool) → Text → Text → Queue → Store → Superseded
unfolding keep_ticket
supersede_tickets worker_inactive job_id session [] s = (ok tt, [], s)
supersede_tickets worker_inactive job_id session (f ∷ q) s = elim f.body [
  | none ↦ supersede_tickets worker_inactive job_id session q s
  | some t ↦ elim (is_other job_id session t) [
    | true ↦ keep_ticket f (supersede_tickets worker_inactive job_id session q s)
    | false ↦ elim (ticket_is_stale worker_inactive (some s) (job_of t)) [
      | err e ↦ (err e, f ∷ q, s)
      | ok true ↦ supersede_tickets worker_inactive job_id session q s
      | ok false ↦
          let (r, s') = request_cancel (job_of t) s in
          elim r [
            | err e ↦ (err e, f ∷ q, s')
            | ok _ ↦ supersede_tickets worker_inactive job_id session q s'
          ]
    ]
  ]
]

abbrev pub Supersession : Type 0
Supersession = Result Error (Unit {0}) × Queue × Option Store

with_store : Superseded → Supersession
with_store (r, q, s) = (r, q, some s)

unfoldable pub supersede_session :
    Option (Text → Bool) → Text → Option Text → Queue → Option Store → Supersession
unfolding with_store
supersede_session worker_inactive job_id none q store = (ok tt, q, store)
supersede_session worker_inactive job_id (some session) q none = (ok tt, q, none)
supersede_session worker_inactive job_id (some session) q (some s) =
    with_store (supersede_tickets worker_inactive job_id session q s)
