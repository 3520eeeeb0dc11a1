-- ===== src/Log/Crash.antt =====
-- Recovery after a crash, with a power failure at any point of it.
use os.Base.{
  ℕ, suc, ◌+◌, ◌-◌, ◌≤◌, ◌<◌, ◌≡◌, ◌≢◌, refl, sym, ap, subst, ◌⊎◌, inl, inr, true, false, none,
  some, List, [], ◌∷◌, arith, length, get_elem?, ◌==◌, Bool-cases, ==_iff,
}
use os.Log.Defs.{
  BlockWords, State, update, has, bread, bwrite, install_from, install_trans, write_head,
  read_header, write_header, read_head, recover_from_log, initlog,
}
use os.Log.Header.{read_header-write_header}
use os.Log.Disk.{
  Outside, Clean, Committed, IsNamed, Installing, update_self, update_ne, install_from-Installing,
  install_from_lem,
}

module _ {B : Type 0} where
  pub power-bwrite : (a : ℕ) (v : B) (s : State B) → (bwrite a v s).power ≡ s.power - 1
  unfolding bwrite
  power-bwrite a v s = elim (Bool-cases (s.power == 0)) [
    | inl z ↦ rw z (ground arith)
    | inr z ↦ rw z
  ]

  pub bwrite_dead : (a : ℕ) (v : B) (s : State B) → s.power ≡ 0 → bwrite a v s ≡ s
  unfolding bwrite
  bwrite_dead a v s h = let z : (s.power == 0) ≡ true = ground arith in rw z

  pub power-install_from :
      (tail : ℕ) (bs : List ℕ) (s : State B) → (install_from tail bs s).power ≡ s.power - length bs
  unfolding install_from
  power-install_from tail [] s = omega arith
  power-install_from tail (b ∷ bs) s = omega (
    arith,
    power-install_from (suc tail) bs (bwrite b (bread s (s.start + tail + 1)) s),
    power-bwrite b (bread s (s.start + tail + 1)) s,
  )

  pub install_from_dead :
      (tail : ℕ) (bs : List ℕ) (s : State B) → s.power ≡ 0 → install_from tail bs s ≡ s
  unfolding install_from
  install_from_dead tail [] s h = refl
  install_from_dead tail (b ∷ bs) s h =
      rw (bwrite_dead b (bread s (s.start + tail + 1)) s h) (install_from_dead (suc tail) bs s h)

Outside-ne_start : (start size b : ℕ) → 0 < size → Outside start size b → b ≢ start
Outside-ne_start start size b some_blocks o = omega arith

module _ {B : Type 0} (c : BlockWords B) (start size : ℕ) where
  -- Writing an empty header.
  clear_header :
      (view disk : ℕ → B) (old : B)
      → 0 < size
      → ((b : ℕ) → Outside start size b → disk b ≡ view b)
      → Clean c start size view (update disk start (write_header c [] old))
  clear_header view disk old some_blocks h = record {
    header =
        rw (update_self disk start (write_header c [] old))
          (read_header-write_header c [] old (omega arith) tt);
    home = λ b o.
        rw
          (update_ne disk start (write_header c [] old) b
            (Outside-ne_start start size b some_blocks o))
          (h b o);
  }

  -- The header block once the log is cleared.
  abbrev pub blank : State B → B
  blank t = write_header c [] (bread (record t { lh = [] }) t.start)

  -- The write of an empty header, with and without power.
  pub write_head_dead :
      (t : State B) → t.power ≡ 0 → (write_head c (record t { lh = [] })).disk ≡ t.disk
  unfolding write_head
  write_head_dead t h =
      ap (λ (x : State B). x.disk) (bwrite_dead t.start (blank t) (record t { lh = [] }) h)

  pub write_head_lem :
      (t : State B)
      → 0 < t.power
      → (write_head c (record t { lh = [] })).disk ≡ update t.disk t.start (blank t)
  unfolding write_head bwrite
  write_head_lem t h = let z : (t.power == 0) ≡ false = ground arith in rw z

  module _ (lh : List ℕ) (view : ℕ → B) (named : IsNamed start size lh) where
    -- The last two steps of `commit` and of `recover_from_log`.
    abbrev pub install_and_clear : State B → State B
    install_and_clear s = write_head c (record (install_trans s) { lh = [] })

    all_installed :
        (s : State B)
        → Installing c start size lh view named s
        → length lh ≤ s.power
        → (b : ℕ) → Outside start size b
        → (install_from 0 lh s).disk b ≡ view b
    all_installed s i h b o = elim (Bool-cases (has b lh)) [
      | inl z ↦ install_from_lem c start size lh view named 0 lh b s zeroth i h z
      | inr z ↦
          (install_from-Installing c start size lh view named 0 lh s zeroth i).committed.rest b o z
    ]
      where
        zeroth : (k x : ℕ) → get_elem? lh k ≡ some x → get_elem? lh (0 + k) ≡ some x
        zeroth k x e = subst (λ n. get_elem? lh n ≡ some x) (omega arith) e

    -- With enough power the blocks are installed and the log is empty; otherwise the log still holds
    -- them.
    abbrev pub Cleared : State B → State B → Type 0
    Cleared s t =
        ((length lh < s.power) × Clean c start size view t.disk)
        ⊎ ((s.power ≤ length lh) × Committed c start size lh view t.disk)

    install_from-Cleared :
        (s : State B)
        → Installing c start size lh view named s
        → Cleared s (write_head c (record (install_from 0 lh s) { lh = [] }))
    install_from-Cleared s i = elim (Bool-cases ((install_from 0 lh s).power == 0)) [
      | inl z ↦ inr (
        ground (arith, power-install_from 0 lh s),
        subst (Committed c start size lh view)
            (sym (write_head_dead (install_from 0 lh s) ((==_iff _ 0).0 z))) after.committed,
      )
      | inr z ↦ inl (
        ground (arith, power-install_from 0 lh s),
        subst (Clean c start size view) (sym (write_head_lem (install_from 0 lh s) (ground arith)))
            (subst
              (λ a.
                Clean c start size view
                  (update (install_from 0 lh s).disk a (blank (install_from 0 lh s))))
              (sym after.start_eq)
              (clear_header view (install_from 0 lh s).disk
                (bread (record (install_from 0 lh s) { lh = [] }) (install_from 0 lh s).start)
                (omega (arith, named.fits))
                (all_installed s i (ground (arith, power-install_from 0 lh s))))),
      )
    ]
      where
        zeroth : (k x : ℕ) → get_elem? lh k ≡ some x → get_elem? lh (0 + k) ≡ some x
        zeroth k x e = subst (λ n. get_elem? lh n ≡ some x) (omega arith) e

        after : Installing c start size lh view named (install_from 0 lh s)
        after = install_from-Installing c start size lh view named 0 lh s zeroth i

    pub install_and_clear_lem :
        (s : State B)
        → s.lh ≡ lh
        → Installing c start size lh view named s
        → Cleared s (install_and_clear s)
    unfolding install_trans
    install_and_clear_lem s e i =
        subst (λ l. Cleared s (write_head c (record (install_from 0 l s) { lh = [] }))) (sym e)
          (install_from-Cleared s i)

  -- The same for a log that is empty.
  pub install_and_clear_empty :
      (view : ℕ → B) (s : State B)
      → s.lh ≡ []
      → s.start ≡ start
      → 0 < size
      → Clean c start size view s.disk
      → Clean c start size view (write_head c (record (install_trans s) { lh = [] })).disk
  unfolding install_trans install_from
  install_and_clear_empty view s e at some_blocks h =
      subst
        (λ l. Clean c start size view (write_head c (record (install_from 0 l s) { lh = [] })).disk)
        (sym e)
        (elim (Bool-cases (s.power == 0)) [
          | inl z ↦ subst (Clean c start size view) (sym (write_head_dead s ((==_iff _ 0).0 z))) h
          | inr z ↦ subst (Clean c start size view) (sym (write_head_lem s (ground arith))) (
              subst (λ a. Clean c start size view (update s.disk a (blank s))) (sym at)
                (clear_header view s.disk (bread (record s { lh = [] }) s.start) some_blocks
                  h.home))
        ])

  -- The machine after a restart.
  abbrev pub restarted : ℕ → (ℕ → B) → State B
  restarted power disk = record {
    start = start;
    size = size;
    outstanding = 0;
    committing = false;
    lh = read_header c (disk start);
    disk = disk;
    dirty = λ _. none;
    power = power;
  }

  -- Recovery of a disk with a committed transaction either completes it, or runs out of power and
  -- leaves it committed; recovery of a clean disk leaves the home blocks as they are.
  pub initlog-Committed :
      (power : ℕ) (lh : List ℕ) (view disk : ℕ → B) (named : IsNamed start size lh)
      → Committed c start size lh view disk
      → ((length lh < power) × Clean c start size view (initlog c start size power disk).disk)
        ⊎ ((power ≤ length lh)
            × Committed c start size lh view (initlog c start size power disk).disk)
  unfolding initlog recover_from_log read_head bread
  initlog-Committed power lh view disk named k =
      install_and_clear_lem lh view named (restarted power disk) k.header
        (record { start_eq = refl; committed = k; flushed = λ a lo hi. refl })

  pub initlog-Clean :
      (power : ℕ) (view disk : ℕ → B)
      → 0 < size
      → Clean c start size view disk
      → Clean c start size view (initlog c start size power disk).disk
  unfolding initlog recover_from_log read_head bread
  initlog-Clean power view disk some_blocks k =
      install_and_clear_empty view (restarted power disk) k.header refl some_blocks k
