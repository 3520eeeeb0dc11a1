-- ===== src/Swap/Ring.antt =====
-- The circular list of pages as a list, pa5_sklt_xv6/kalloc.c.
use os.Base.{
  ℕ, ◌+◌, ◌<◌, ◌≡◌, ◌≢◌, refl, sym, ap, ◌∙◌, subst, false, Option, none, some, List, [], ◌∷◌, ◌++◌,
  All, length, length-append, arith, ◌==◌, ==_iff, Bool-cases, Option-cases, inl, inr,
}
use os.Swap.Defs.{
  u32, Lru, link, count_added, count_removed, unlink, is_single, bypass, lru_add, lru_remove,
}

link_eq : (f : ℕ → Option ℕ) (a x : ℕ) (v : Option ℕ) → x ≡ a → link f a v x ≡ v
link_eq f a x v e = rw ((==_iff x a).1 e) refl

link_ne : (f : ℕ → Option ℕ) (a x : ℕ) (v : Option ℕ) → x ≢ a → link f a v x ≡ f x
link_ne f a x v ne = elim (Bool-cases (x == a)) [
  | inl z ↦ absurd (ne ((==_iff x a).0 z))
  | inr z ↦ rw (z) refl
]

-- From a on, `next` leads through the pages and then to b, and `prev` leads back.
abbrev pub Links : (next prev : ℕ → Option ℕ) → ℕ → List ℕ → ℕ → Type 0
Links next prev a [] b = (next a ≡ some b) × (prev b ≡ some a)
Links next prev a (x ∷ xs) b = (next a ≡ some x) × (prev x ≡ some a) × Links next prev x xs b

abbrev pub Distinct : List ℕ → Type 0
Distinct [] = Unit
Distinct (x ∷ xs) = All (λ y. x ≢ y) xs × Distinct xs

-- The list stands for the pages in order, from the head on, each once, and is counted.
abbrev pub IsRing : Lru → List ℕ → Type 0
IsRing l [] = (l.page_lru_head ≡ none) × (l.num_lru_pages ≡ 0)
IsRing l (h ∷ xs) =
    (l.page_lru_head ≡ some h)
    × Links l.next l.prev h xs h
    × Distinct (h ∷ xs)
    × (l.num_lru_pages ≡ length (h ∷ xs))

abbrev last : ℕ → List ℕ → ℕ
last a [] = a
last a (x ∷ xs) = last x xs

last_lem :
    (next prev : ℕ → Option ℕ) (a b : ℕ) (xs : List ℕ)
    → Links next prev a xs b
    → prev b ≡ some (last a xs)
last_lem next prev a b [] (_, back) = back
last_lem next prev a b (x ∷ xs) (_, _, more) = last_lem next prev x b xs more

All-last {ℓ} : (P : ℕ → Type ℓ) (a : ℕ) (xs : List ℕ) → All P (a ∷ xs) → P (last a xs)
All-last P a [] (p, _) = p
All-last P a (x ∷ xs) (_, more) = All-last P x xs more

Links-append :
    (next prev : ℕ → Option ℕ) (a h page : ℕ) (xs : List ℕ)
    → h ≢ page
    → All (λ y. y ≢ page) (a ∷ xs)
    → All (λ y. h ≢ y) xs
    → Distinct (a ∷ xs)
    → Links next prev a xs h
    → Links
        (link (link next (last a xs) (some page)) page (some h))
        (link (link prev page (some (last a xs))) h (some page))
        a
        (xs ++ (page ∷ []))
        h
Links-append next prev a h page [] other (a_ne, _) _ _ (forth, back) = (
  link_ne (link next a (some page)) page a (some h) a_ne ∙ link_eq next a a (some page) refl,
  link_ne (link prev page (some a)) h page (some page) (λ e. other (sym e))
      ∙ link_eq prev page page (some a) refl,
  (
    link_eq (link next a (some page)) page page (some h) refl,
    link_eq (link prev page (some a)) h h (some page) refl,
  ),
)
Links-append next prev a h page (x ∷ xs) other (a_ne, (x_ne, xs_ne)) (h_ne, h_nes) (apart, distinct)
      (forth, back, more) =
    let t = last x xs in
    (
      link_ne (link next t (some page)) page a (some h) a_ne
          ∙ link_ne next t a (some page) (All-last (λ y. a ≢ y) x xs apart)
          ∙ forth,
      link_ne (link prev page (some t)) h x (some page) (λ e. h_ne (sym e))
          ∙ link_ne prev page x (some t) x_ne
          ∙ back,
      Links-append next prev x h page xs other (x_ne, xs_ne) h_nes distinct more,
    )

All-append {ℓ} : (P : ℕ → Type ℓ) (xs : List ℕ) (y : ℕ) → All P xs → P y → All P (xs ++ (y ∷ []))
All-append P [] y _ p = (p, tt)
All-append P (x ∷ xs) y (q, more) p = (q, All-append P xs y more p)

Distinct-append :
    (xs : List ℕ) (page : ℕ) → All (λ y. y ≢ page) xs → Distinct xs → Distinct (xs ++ (page ∷ []))
Distinct-append [] page _ _ = (tt, tt)
Distinct-append (x ∷ xs) page (ne, nes) (apart, distinct) =
    (All-append (λ y. x ≢ y) xs page apart ne, Distinct-append xs page nes distinct)

-- `lru_add` of a page that is not in the list puts it at the tail, after all others, keeps their
-- order and the links both ways, and counts it, if the list is shorter than 2 ^ 32 - 1.
pub lru_add-IsRing :
    (l : Lru) (pages : List ℕ) (page : ℕ)
    → IsRing l pages
    → All (λ y. y ≢ page) pages
    → length pages + 1 < u32
    → (l' : Lru) × (lru_add page l ≡ some l') × IsRing l' (pages ++ (page ∷ []))
unfolding lru_add
lru_add-IsRing l [] page (empty, count) _ small = (
  count_added (record l {
    page_lru_head = some page;
    next = link l.next page (some page);
    prev = link l.prev page (some page);
  }),
  rw (empty, lru_add) refl,
  (
    refl,
    (link_eq l.next page page (some page) refl, link_eq l.prev page page (some page) refl),
    (tt, tt),
    omega arith,
  ),
)
lru_add-IsRing l (h ∷ xs) page (head, links, (apart, distinct), count) (h_ne, xs_ne) small =
    let back = last_lem l.next l.prev h h xs links in
    (
      count_added (record l {
        page_lru_head = some h;
        next = link (link l.next (last h xs) (some page)) page (some h);
        prev = link (link l.prev page (some (last h xs))) h (some page);
      }),
      rw (head, lru_add)
          (rw (back) (
            ap
              (λ x. some (
                count_added (record l {
                  page_lru_head = x;
                  next = link (link l.next (last h xs) (some page)) page (some h);
                  prev = link (link l.prev page (some (last h xs))) h (some page);
                })))
              head)),
      (
        refl,
        Links-append l.next l.prev h h page xs h_ne (h_ne, xs_ne) apart (apart, distinct) links,
        Distinct-append (h ∷ xs) page (h_ne, xs_ne) (apart, distinct),
        omega (arith, length-append xs (page ∷ [])),
      ),
    )

single_unlinked : (page : ℕ) (l : Lru) → is_single page (count_removed (unlink page l)) ≡ false
single_unlinked page l = rw ((==_iff page page).1 refl, is_single) refl

remove_unlinked : (page : ℕ) (l : Lru) → lru_remove page (count_removed (unlink page l)) ≡ none
unfolding lru_remove bypass
remove_unlinked page l =
    let self = (==_iff page page).1 refl in rw (single_unlinked page l) (rw (self) refl)

-- A second `lru_remove` of the page that was removed last uses a null pointer.
pub lru_remove-lru_remove :
    (page : ℕ) (l l' : Lru) → lru_remove page l ≡ some l' → lru_remove page l' ≡ none
unfolding lru_remove
lru_remove-lru_remove page l l' done = elim (Bool-cases (is_single page l)) [
  | inl z ↦ again (record l { page_lru_head = none }) (sym (rw (z, lru_remove) refl) ∙ done)
  | inr z ↦ elim (Option-cases (bypass page l)) [
    | inl y ↦ absurd (never (sym (rw (z, lru_remove) (rw (y) refl)) ∙ done))
    | inr (k, y) ↦ again k (sym (rw (z, lru_remove) (rw (y) refl)) ∙ done)
  ]
]
  where
    never : none ≡ some l' → ⊥
    never e = cc

    same : (a b : Lru) → some a ≡ some b → a ≡ b
    same a b e = cc

    again : (k : Lru) → some (count_removed (unlink page k)) ≡ some l' → lru_remove page l' ≡ none
    again k e =
        subst (λ x. lru_remove page x ≡ none) (same (count_removed (unlink page k)) l' e)
          (remove_unlinked page k)
