-- ===== src/Kvsrv/Lock/Tests.antt =====
-- Two clients of the lock in src/kvsrv1/lock/lock.go.
use mit_6_5824_lab.Kvsrv.Registers.{serve_puts}
use mit_6_5824_lab.Kvsrv.Server.{add_record, update_record, get, put}
use mathlib.Core.Option
use mit_6_5824_lab.Prelude.{
  lookup, insert, ℕ, zero, suc, String, ◌≡◌, refl, ap, ◌≢◌, false, ◌&&◌, some, List, [], ◌∷◌, arith,
}
use mit_6_5824_lab.Kvsrv.Clerk.{Fate, delivered, put_loop, clerk_get}
use mit_6_5824_lab.Kvsrv.Clerk.Single.{InRange}
use mit_6_5824_lab.Kvsrv.Lock.Clients.{
  reading, releasing, read_turn, put_turn, after_read, after_write, lock_turn, Room, fresh_room,
  run_room,
}
use mit_6_5824_lab.Kvsrv.Lock.Exclusion.{inside, run_room_lem}
use Prim.Native.Char.{char}

-- The values drawn: rows of strokes of different lengths.
abbrev row : ℕ → String
row zero = String.◌∷◌ (char 1 tt) String.[]
row (suc n) = String.◌∷◌ (char 1 tt) (row n)

abbrev size : String → ℕ
size String.[] = 0
size (String.◌∷◌ c s) = suc (size s)

size-row : (n : ℕ) → size (row n) ≡ suc n
size-row zero = refl
size-row (suc n) = ap suc (size-row n)

row_differs : (x y : ℕ) → row x ≡ row y → x ≡ y
row_differs x y e = omega (arith, size-row x, size-row y, ap size e)

row_solid : (x : ℕ) → row x ≢ ""
row_solid x e = absurd (omega (arith, size-row x, ap size e))

abbrev schedule : List (ℕ × Fate)
schedule =
    (0, delivered)
    ∷ (0, delivered)
    ∷ (1, delivered)
    ∷ (1, delivered)
    ∷ (0, delivered)
    ∷ (1, delivered)
    ∷ (0, delivered)
    ∷ (1, delivered)
    ∷ []

in_range : InRange 2 schedule
in_range = (
  omega arith,
  (
    omega arith,
    (omega arith, (omega arith, (omega arith, (omega arith, (omega arith, (omega arith, tt)))))),
  ),
)

run_room_lem_example :
    (room : Room) × (run_room row "l" 0 schedule (fresh_room 2) ≡ some room)
    × (inside "l" 0 room && inside "l" 1 room ≡ false)
run_room_lem_example =
    run_room_lem row "l" 2 schedule 0 1 row_differs row_solid in_range (omega arith) (omega arith)

-- The first client has the lock, and the second one reads again.
stages_after :
    Option.map (λ room. room.stages) (run_room row "l" 0 schedule (fresh_room 2))
    ≡ some (releasing 1 ∷ reading ∷ [])
unfolding run_room lock_turn fresh_room read_turn put_turn after_read after_write clerk_get put_loop
    serve_puts get put lookup insert add_record update_record
stages_after = refl
