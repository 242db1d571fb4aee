-- ===== src/Scheduler/Tickets.antt =====
-- trie_remote/scheduler.py: the queue directory of `ResourcePool` and its ticket files.
use remote_worktree_runner.Prelude.{
  ℕ, zero, suc, ◌+◌, ◌/◌, ◌%◌, ◌^◌, Option, none, some, List, [], ◌∷◌, ◌++◌, if◌then◌else◌, Text,
  codes, text_eq, text_ltb, ends_with,
}

-- The JSON object of a ticket file; a member that is missing is `none`.
pub record Ticket : Type 0 where
  pub job_id : Option Text
  pub requested_permits : Option ℕ
  pub created_at : Option ℕ
  pub session : Option Text

-- One `*.json` file. A body that is `none` is a file that `_read_ticket` raises on.
pub record TicketFile : Type 0 where
  pub name : Text
  pub body : Option Ticket

-- The directory's `*.json` files in the order of their names: `_ticket_paths` is this list.
abbrev pub Queue : Type 0
Queue = List TicketFile

-- The `w` last decimal digits.
unfoldable pub decimal : ℕ → ℕ → Text
decimal zero n = []
decimal (suc w) n = (b'0' + n / 10 ^ w) ∷ decimal w (n % 10 ^ w)

-- f"-{job_id}.json"
unfoldable pub ticket_suffix : Text → Text
ticket_suffix job_id = b'-' ∷ (job_id ++ codes ".json")

-- f"{time.time_ns():020d}-{job_id}.json"; 20 digits are enough for the next 3000 years.
unfoldable pub ticket_name : ℕ → Text → Text
ticket_name time_ns job_id = decimal 20 time_ns ++ ticket_suffix job_id

unfoldable pub find_ticket : Text → Queue → Option TicketFile
find_ticket job_id [] = none
find_ticket job_id (f ∷ q) =
    if ends_with f.name (ticket_suffix job_id) then some f else find_ticket job_id q

-- os.replace(temporary, path): the file stands in its place of the order, over an older one.
unfoldable pub put : TicketFile → Queue → Queue
put f [] = f ∷ []
put f (g ∷ q) =
    if text_ltb f.name g.name
    then f ∷ g ∷ q
    else if text_eq f.name g.name
    then f ∷ q
    else g ∷ put f q

-- path.unlink(missing_ok=True)
unfoldable pub unlink : Text → Queue → Queue
unlink name [] = []
unlink name (f ∷ q) = let rest = unlink name q in if text_eq f.name name then rest else f ∷ rest

abbrev pub new_ticket : Text → ℕ → Option Text → ℕ → ℕ → TicketFile
new_ticket job_id requested session time_ns created_at = record {
  name = ticket_name time_ns job_id;
  body = some (record {
    job_id = some job_id;
    requested_permits = some requested;
    created_at = some created_at;
    session = session;
  });
}

put_unless : Option TicketFile → TicketFile → Queue → Queue
put_unless (some existing) f q = q
put_unless none f q = put f q

-- `time_ns` and `created_at` are the two readings of the clock.
unfoldable pub write_ticket : Text → ℕ → Option Text → ℕ → ℕ → Queue → Queue
unfolding put_unless
write_ticket job_id requested session time_ns created_at q =
    put_unless (find_ticket job_id q) (new_ticket job_id requested session time_ns created_at) q

unlink_found : Option TicketFile → Queue → Queue
unlink_found none q = q
unlink_found (some f) q = unlink f.name q

unfoldable pub remove_ticket : Text → Queue → Queue
unfolding unlink_found
remove_ticket job_id q = unlink_found (find_ticket job_id q) q
