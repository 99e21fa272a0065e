-- ===== src/SocketSelector/Report.antt =====
-- What `Select` reports.
use netb.Memory.{Bytes}
use netb.Errors.{Error, eintr, interrupted}
use netb.Prelude.{
  ℕ, zero, suc, ◌≡◌, List, [], ◌∷◌, ◌++◌, replicate, Option, some, ok, ◌==◌, if◌then◌else◌, arith,
  refl, ap,
}
use netb.SocketSelector.{
  SocketSelector, SocketEvents, Answer, select_failed, active, FdSet, events_of, report, select,
}
use netb.SocketSelector.Laws.{count}

-- The descriptors of a report.
unfoldable pub descriptors : List SocketEvents → List ℕ
descriptors [] = []
descriptors ((fd, events) ∷ rest) = fd ∷ descriptors rest

-- Every entry has the events that are active for its descriptor.
abbrev pub IsActive : (ℕ → ℕ) → List SocketEvents → Type 0
IsActive events [] = Unit
IsActive events ((fd, e) ∷ rest) = (e ≡ events fd) × IsActive events rest

count-report :
    (events : ℕ → ℕ) (x : ℕ) (fds : List ℕ)
    → count x (descriptors (report events fds)) ≡ (if events x == 0 then 0 else count x fds)
unfolding count report descriptors
count-report events x [] = ground arith
count-report events x (fd ∷ fds) = ground (arith, count-report events x fds, ap events)

report-IsActive : (events : ℕ → ℕ) (fds : List ℕ) → IsActive events (report events fds)
unfolding report
report-IsActive events [] = tt
report-IsActive events (fd ∷ fds) = ground (arith, report-IsActive events fds)

select-interrupted :
    (sel : SocketSelector) (msg : Bytes) (old : List SocketEvents) (e : Option Error) (n : ℕ)
    (answers : List Answer)
    → select sel msg old e (replicate n (select_failed eintr) ++ answers)
      ≡ select sel msg old e answers
unfolding select interrupted
select-interrupted sel msg old e zero answers = refl
select-interrupted sel msg old e (suc n) answers = select-interrupted sel msg old e n answers

-- Where `::select` is interrupted any number of times and then finds active descriptors, `Select`
-- returns their number, leaves the error as it is, and reports each listed descriptor with an
-- active event as often as it is listed, no other one, and each with its active events.
pub select_lem :
    (sel : SocketSelector) (msg : Bytes) (old : List SocketEvents) (e : Option Error) (n k : ℕ)
    (r w x : FdSet) (answers : List Answer)
    → (events : List SocketEvents) × (select sel msg old e
          (replicate n (select_failed eintr) ++ active k r w x ∷ answers)
        ≡ ok (record { result = some (suc k); error = e; events = events; answers = answers }))
      × ((fd : ℕ)
          → count fd (descriptors events)
            ≡ (if events_of r w x fd == 0 then 0 else count fd sel.sockets))
      × IsActive (events_of r w x) events
unfolding select
select_lem sel msg old e n k r w x answers = (
  report (events_of r w x) sel.sockets,
  select-interrupted sel msg old e n (active k r w x ∷ answers),
  λ fd. count-report (events_of r w x) fd sel.sockets,
  report-IsActive (events_of r w x) sel.sockets,
)
