-- ===== src/Log/Tests.antt =====
-- The log at concrete states.
use os.Base.{
  ℕ, ◌+◌, ◌≤◌, ◌<◌, ◌≡◌, refl, ◌⊎◌, true, none, some, List, [], ◌∷◌, arith, get_elem?, zero, suc,
  ◌≢◌, ◌==◌, if◌then◌else◌,
}
use os.Log.Defs.{BlockWords, State, update, read_header, log_write, commit, initlog}
use os.Log.Reserve.{IsReserved, begin_ops, log_all, empty_log, log_write_full}
use os.Log.Disk.{Clean}
use os.Log.Commit.{IsQuiet, committed_view, commit_atomic}

-- Blocks of words.
abbrev Words : Type 0
Words = ℕ → ℕ

word_eq : (b : Words) (i v : ℕ) → update b i v i ≡ v
word_eq b i v = ground arith

word_ne : (b : Words) (i j v : ℕ) → i ≢ j → update b j v i ≡ b i
word_ne b i j v n = ground arith

abbrev plain_words : BlockWords Words
plain_words = record {
  word = λ b. b;
  put = update;
  word-put_eq = λ b i v h k. word_eq b i v;
  word-put_ne = λ b i j v h k n. word_ne b i j v n;
}

-- The log of mkfs: LOGSIZE blocks from 2 on. Blocks 32, the first one of inodes, and 41 have been
-- written by the operations that have just ended.
abbrev ready : State Words
ready = record {
  start = 2;
  size = 30;
  outstanding = 0;
  committing = true;
  lh = 32 ∷ 41 ∷ [];
  disk = λ _ _. 0;
  dirty = λ a. if a == 32 then some (λ _. 7) else if a == 41 then some (λ _. 8) else none;
  power = 4;
}

-- The power fails in the middle of the installation, and recovery completes it.
recovers : (initlog plain_words 2 30 9 (commit plain_words ready).disk).disk 41 5 ≡ 8
unfolding initlog commit
recovers = refl

-- With two writes only the log blocks are written.
forgets :
    (initlog plain_words 2 30 9 (commit plain_words (record ready { power = 2 })).disk).disk 41 5
    ≡ 0
unfolding initlog commit
forgets = refl

ready_outside : (t b : ℕ) → get_elem? ready.lh t ≡ some b → (b < 2) ⊎ (2 + 30 ≤ b)
ready_outside zero b e = ground arith
ready_outside (suc zero) b e = ground arith
ready_outside (suc (suc t)) b e = cc

ready-IsQuiet : IsQuiet plain_words ready
unfolding read_header
ready-IsQuiet = record {
  header = refl;
  flushed = λ a lo hi. ground arith;
  named = record {
    few = omega arith;
    fits = omega arith;
    words = (omega arith, (omega arith, tt));
    outside = ready_outside;
  };
}

commit_atomic_example :
    ((4 ≤ 2)
      × Clean plain_words 2 30
          (λ _ _. 0)
          (initlog plain_words 2 30 9
            (initlog plain_words 2 30 1 (commit plain_words ready).disk).disk).disk)
    ⊎ ((2 < 4)
        × Clean plain_words 2 30
            (committed_view ready)
            (initlog plain_words 2 30 9
              (initlog plain_words 2 30 1 (commit plain_words ready).disk).disk).disk)
commit_atomic_example =
    commit_atomic plain_words ready ready-IsQuiet 1 9 (omega arith) (omega arith)

-- The blocks from `first` on.
abbrev numbered : ℕ → ℕ → List (ℕ × Words)
numbered zero first = []
numbered (suc n) first = (first, (λ _. 7)) ∷ numbered n (first + 1)

log_write_full_example :
    (s t : State Words) × (begin_ops 3 (empty_log 2 99 (λ _ _. 0)) ≡ some s)
    × IsReserved s (10 ∷ 10 ∷ 10 ∷ [])
    × (log_all (numbered 29 40) s ≡ some t)
    × IsReserved t (1 ∷ 0 ∷ 0 ∷ [])
    × (log_write 70 (λ _. 8) t ≡ none)
log_write_full_example = log_write_full 2 99 (λ _ _. 0) (numbered 29 40) 70 (λ _. 8) refl refl
