-- ===== src/Finality/Reached.antt =====
-- The worlds that the events lead to, and the invariant in them.
use stellar_royalty_splitter.Prelude.{ℕ, refl, [], nat_eq}
use stellar_royalty_splitter.Prelude.Map.{get}
use stellar_royalty_splitter.Finality.Backoff.{Config}
use stellar_royalty_splitter.Finality.Tracker.{World, Event, step}
use stellar_royalty_splitter.Finality.Invariant.{IsValid}
use stellar_royalty_splitter.Finality.Preserved.{step-IsValid}

-- The worlds that a world can come to.
pub data Reaches (cfg : Config) (w : World) : World → Type 0 where
  stay : Reaches cfg w w
  after : {v : World} → Reaches cfg w v → (e : Event) → Reaches cfg w (step cfg e v)

-- The server has just started, with an empty table.
abbrev pub initial : ℕ → World
initial now = record {
  now = now;
  rows = [];
  trackers = [];
  loops = [];
  next_loop = 0;
  next_row_id = 1;
  updates = [];
}

-- In every world that is reached from the initial one, each loop works on a pending row, no two
-- loops work on the same row, and the final status of a row is set exactly when its status is no
-- longer pending, and then equals it.
pub reached-IsValid : (cfg : Config) (now : ℕ) (w : World) → Reaches cfg (initial now) w → IsValid w
unfolding get
reached-IsValid cfg now w stay = record {
  agrees = λ j r is. cc;
  is_pending = λ n l is. cc;
  alone = λ n m l k is. cc;
  unused = λ n le. refl;
}
reached-IsValid cfg now w (after {v = v} path e) =
    step-IsValid cfg e v (reached-IsValid cfg now v path)
