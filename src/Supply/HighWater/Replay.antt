-- ===== src/Supply/HighWater/Replay.antt =====
-- The mark over a history of attempts, failed writes and restarts.
use tokenhush.Base.{
  ℕ, ◌≤◌, ◌<◌, ◌≡◌, refl, ap, Bool, true, false, some, List, [], ◌∷◌, ℤ, pos, negsuc, arith,
}
use tokenhush.Supply.HighWater.{
  FileHighWater, accepted, replayed, read_high_water, new_file_high_water, advance, MarkEvent,
  advances, restarts, mark_step, marks,
}

-- The file, read again, gives the mark in memory.
abbrev pub IsSaved : FileHighWater → Type 0
IsSaved f = read_high_water f.file ≡ some f.serial

advance-IsSaved :
    (f : FileHighWater) (n : ℤ) (written : Bool)
    → IsSaved f
    → IsSaved (advance f n written).1 × (f.serial ≤ (advance f n written).1.serial)
unfolding advance read_high_water
advance-IsSaved f (negsuc n) written s = (s, omega arith)
advance-IsSaved f (pos n) true s = ground arith
advance-IsSaved f (pos n) false s = ground arith

restart-IsSaved : (f : FileHighWater) → IsSaved f → new_file_high_water f.file ≡ some f
unfolding new_file_high_water
restart-IsSaved f s = rw (s, new_file_high_water)

mark_step_kept :
    (f : FileHighWater) (e : MarkEvent)
    → IsSaved f
    → (f' : FileHighWater) × (mark_step f e ≡ some f') × IsSaved f' × (f.serial ≤ f'.serial)
unfolding mark_step
mark_step_kept f (advances n written) s =
    let (saved, le) = advance-IsSaved f n written s in ((advance f n written).1, refl, saved, le)
mark_step_kept f restarts s = (f, restart-IsSaved f s, s, omega arith)

marks_cons :
    (f f' f'' : FileHighWater) (e : MarkEvent) (es : List MarkEvent)
    → mark_step f e ≡ some f'
    → marks f' es ≡ some f''
    → marks f (e ∷ es) ≡ some f''
unfolding marks
marks_cons f f' f'' e es h k = rw (h, marks) k

-- For a mark whose file, read again, gives the mark in memory: after any history of attempts, failed
-- writes and restarts the store is there, its file still gives its mark, and the mark has not gone
-- down.
pub marks_kept :
    (f : FileHighWater) (es : List MarkEvent)
    → IsSaved f
    → (f' : FileHighWater) × (marks f es ≡ some f') × IsSaved f' × (f.serial ≤ f'.serial)
marks_kept f [] s = (f, (unfold marks in refl), s, omega arith)
marks_kept f (e ∷ es) s =
    let (f', step, saved, le) = mark_step_kept f e s in
    let (f'', rest, saved', le') = marks_kept f' es saved in
    (f'', marks_cons f f' f'' e es step rest, saved', omega arith)

accepted_serial :
    (f : FileHighWater) (n : ℕ) (written : Bool)
    → (advance f (pos n) written).0 ≡ accepted
    → (advance f (pos n) written).1.serial ≡ n
unfolding advance
accepted_serial f n true h = ground arith
accepted_serial f n false h = ground arith

advance_low :
    (f : FileHighWater) (m : ℕ) (written : Bool)
    → m < f.serial
    → advance f (pos m) written ≡ (replayed, f)
unfolding advance
advance_low f m written h = ground arith

-- For a mark whose file, read again, gives the mark in memory: once a serial was accepted, every
-- lower serial is rejected as a replay and changes nothing, after any history of attempts, failed
-- writes and restarts in between.
pub replay_rejected :
    (f f' : FileHighWater) (n m : ℕ) (written written' : Bool) (es : List MarkEvent)
    → IsSaved f
    → (advance f (pos n) written).0 ≡ accepted
    → marks (advance f (pos n) written).1 es ≡ some f'
    → m < n
    → advance f' (pos m) written' ≡ (replayed, f')
replay_rejected f f' n m written written' es s h k lt =
    let (saved, le) = advance-IsSaved f (pos n) written s in
    let (f'', same, saved', le') = marks_kept (advance f (pos n) written).1 es saved in
    let states : f'' ≡ f' = cc (same, k) in
    advance_low f' m written'
      (omega (arith, accepted_serial f n written h, ap (λ f. f.serial) states))
