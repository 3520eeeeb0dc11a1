-- ===== src/Cache/Steps.antt =====
-- The steps of the processes that use the buffer cache of xv6-public/bio.c.
use os.Base.{ℕ, Bool-cases, ◌≡◌, refl, sym, ◌∙◌, subst, inl, inr, true, false, some}
use os.Cache.Defs.{
  Block, Buf, State, got, waits, set_buf, holdingsleep, bread, bread_woken, bwrite, brelse, binit,
}
use os.Cache.Search.{In}
use os.Cache.Coherence.{true≢false, false≢true, IsValid, change-IsValid}
use os.Cache.Reads.{Reads, bread_lem, bread_woken_lem}
use os.Cache.Writes.{Writes, bwrite_lem}
use os.Cache.Releases.{Releases, brelse_lem}

-- A process reads a block, or falls asleep on its buffer and reads it later; with a buffer locked it
-- changes the bytes, marks the buffer dirty as `log_write` does, writes it or gives it back. It gives
-- back only a buffer that is dirty or as on the disk.
pub data Step (disksize : ℕ) : State → State → Type 0 where
  reads :
      {s s' : State} (me dev blockno b : ℕ)
      → bread disksize me dev blockno s ≡ got b s'
      → Step disksize s s'
  sleeps :
      {s s' : State} (me dev blockno b : ℕ)
      → bread disksize me dev blockno s ≡ waits b s'
      → Step disksize s s'
  wakes :
      {s s' : State} (me b : ℕ)
      → In b s.order
      → bread_woken disksize me b s ≡ got b s'
      → Step disksize s s'
  edits :
      {s : State} (me b : ℕ) (bytes : Block)
      → In b s.order
      → holdingsleep me (s.bufs b).lock ≡ true
      → Step disksize s (set_buf b (record (s.bufs b) { contents = bytes }) s)
  pins :
      {s : State} (me b : ℕ)
      → In b s.order
      → holdingsleep me (s.bufs b).lock ≡ true
      → (s.bufs b).valid ≡ true
      → Step disksize s (set_buf b (record (s.bufs b) { dirty = true }) s)
  writes :
      {s s' : State} (me b : ℕ)
      → In b s.order
      → (s.bufs b).valid ≡ true
      → bwrite disksize me b s ≡ some s'
      → Step disksize s s'
  releases :
      {s s' : State} (me b : ℕ)
      → In b s.order
      → ((s.bufs b).valid ≡ true
          → (s.bufs b).dirty ≡ false
          → (s.bufs b).contents ≡ s.disk (s.bufs b).blockno)
      → brelse me b s ≡ some s'
      → Step disksize s s'

-- The states that follow `binit`.
pub data Reached (disksize nbuf : ℕ) (disk : ℕ → Block) : State → Type 0 where
  starts : Reached disksize nbuf disk (binit nbuf disk)
  goes_on :
      {s s' : State}
      → Reached disksize nbuf disk s
      → Step disksize s s'
      → Reached disksize nbuf disk s'

binit-IsValid : (nbuf : ℕ) (disk : ℕ → Block) → IsValid (binit nbuf disk)
unfolding binit
binit-IsValid nbuf disk = record {
  distinct = λ b c _ _ (_, _, here). absurd (here refl);
  sound = λ b _. record {
    pinned = λ e. absurd (false≢true e);
    of_disk = λ e. absurd (false≢true e);
    clean = λ _ e _. absurd (false≢true e);
  };
}

holdingsleep-locked : (me : ℕ) (x : Buf) → holdingsleep me x.lock ≡ true → x.lock.locked ≡ true
unfolding holdingsleep
holdingsleep-locked me x e = elim (Bool-cases x.lock.locked) [ inl z ↦ z | inr z ↦ cc ]

Step-IsValid : (disksize : ℕ) {s s' : State} → Step disksize s s' → IsValid s → IsValid s'
Step-IsValid disksize {s} (reads me dev blockno b e) ok =
    (subst (Reads s.order s.disk disksize me dev blockno _) e
      (bread_lem disksize me dev blockno s ok)).0.ok
Step-IsValid disksize {s} (sleeps me dev blockno b e) ok =
    (subst (Reads s.order s.disk disksize me dev blockno _) e
      (bread_lem disksize me dev blockno s ok)).ok
Step-IsValid disksize {s} (wakes me b at e) ok =
    (subst (Reads s.order s.disk disksize me _ _ ⊥) e (bread_woken_lem disksize me b s ok at)).0.ok
Step-IsValid disksize {s} (edits me b bytes at h) ok =
    change-IsValid ok b at (record (s.bufs b) { contents = bytes }) refl refl
      (record {
        pinned = (ok.sound b at).pinned;
        of_disk = (ok.sound b at).of_disk;
        clean = λ free. absurd (true≢false (sym (holdingsleep-locked me (s.bufs b) h) ∙ free));
      })
Step-IsValid disksize {s} (pins me b at h valid) ok =
    change-IsValid ok b at (record (s.bufs b) { dirty = true }) refl refl
      (record {
        pinned = λ _. valid;
        of_disk = (ok.sound b at).of_disk;
        clean = λ _ _ d. absurd (true≢false d);
      })
Step-IsValid disksize {s} (writes me b at valid e) ok =
    (subst (Writes disksize me b s) e (bwrite_lem disksize me b s ok at valid)).ok
Step-IsValid disksize {s} (releases me b at fresh e) ok =
    (subst (Releases me b s) e (brelse_lem me b s ok at fresh)).1.ok

-- Every state that the steps reach after `binit` is valid: two buffers of one block of a device
-- other than 0 are the same, and a valid buffer that is not dirty and that nobody holds has the
-- bytes of its block on the disk.
pub Reached-IsValid :
    (disksize nbuf : ℕ) (disk : ℕ → Block) {s : State} → Reached disksize nbuf disk s → IsValid s
Reached-IsValid disksize nbuf disk starts = binit-IsValid nbuf disk
Reached-IsValid disksize nbuf disk (goes_on past step) =
    Step-IsValid disksize step (Reached-IsValid disksize nbuf disk past)
