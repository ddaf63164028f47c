-- ===== src/Paths/Contents.antt =====
-- What a cleaned path contains: no byte that the path did not contain, but for `.` and `/`.
use pmg.Prelude.{
  ℕ, ◌==◌, ◌||◌, subst, ◌≡◌, ◌≢◌, refl, Bool, true, false, Option, none, some, Text, ◌=ₜ◌, is_empty,
  cons_head, cut_last, split_on, join_with, List, [], ◌∷◌, ◌++◌, All, Lacks, arith, Bool-cases,
  Option-cases, inl, inr,
}
use pmg.Paths.{
  dot, dot_dot, is_rooted, go_up, clean_step, clean_loop, reverse_onto, write_path, clean, dir_of,
  dir,
}

cut_last_sound : (x : ℕ) (s a b : Text) → cut_last x s ≡ some (a, b) → s ≡ a ++ x ∷ b
unfolding cut_last
cut_last_sound x [] a b h = cc
cut_last_sound x (d ∷ s) [] b h = elim (Option-cases (cut_last x s)) [
  | inl n ↦ ground arith
  | inr (r, m) ↦ ground arith
]
cut_last_sound x (d ∷ s) (y ∷ a) b h = elim (Option-cases (cut_last x s)) [
  | inl n ↦ ground arith
  | inr ((a', b'), m) ↦ ground (arith, cut_last_sound x s a b)
]

module _ (c : ℕ) where
  abbrev pub AllLack : List Text → Type 0
  AllLack = All (Lacks c)

  Lacks-append : (s t : Text) → Lacks c s → Lacks c t → Lacks c (s ++ t)
  Lacks-append [] t ls lt = lt
  Lacks-append (d ∷ s) t ls lt = (ls.0, Lacks-append s t ls.1 lt)

  pub Lacks-before : (s t : Text) → Lacks c (s ++ t) → Lacks c s
  Lacks-before [] t l = tt
  Lacks-before (d ∷ s) t l = (l.0, Lacks-before s t l.1)

  AllLack-cons_head : (d : ℕ) (ps : List Text) → (d ≢ c) → AllLack ps → AllLack (cons_head d ps)
  AllLack-cons_head d [] n l = ((n, tt), tt)
  AllLack-cons_head d (p ∷ ps) n l = ((n, l.0), l.1)

  AllLack-split_on : (x : ℕ) (s : Text) → Lacks c s → AllLack (split_on x s)
  unfolding split_on
  AllLack-split_on x [] l = (tt, tt)
  AllLack-split_on x (d ∷ s) l = elim (Bool-cases (d == x)) [
    | inl e ↦ rw e (tt, AllLack-split_on x s l.1)
    | inr e ↦ rw e (AllLack-cons_head d (split_on x s) l.0 (AllLack-split_on x s l.1))
  ]

  -- The parts of a cleaned path, and its text.
  module _ (n46 : 46 ≢ c) (n47 : 47 ≢ c) where
    AllLack-go_up : (r : Bool) (ps : List Text) → AllLack ps → AllLack (go_up r ps)
    unfolding go_up
    AllLack-go_up true [] l = tt
    AllLack-go_up false [] l = ((n46, (n46, tt)), tt)
    AllLack-go_up r (p ∷ ps) l = elim (Bool-cases (p =ₜ dot_dot)) [
      | inl e ↦ rw e ((n46, (n46, tt)), l)
      | inr e ↦ rw e l.1
    ]

    AllLack-clean_step :
        (r : Bool) (p : Text) (ps : List Text)
        → Lacks c p
        → AllLack ps
        → AllLack (clean_step r p ps)
    unfolding clean_step
    AllLack-clean_step r p ps lp l = elim (Bool-cases (is_empty p || p =ₜ dot)) [
      | inl e ↦ rw e l
      | inr e ↦ elim (Bool-cases (p =ₜ dot_dot)) [
        | inl f ↦ rw (e, f) (AllLack-go_up r ps l)
        | inr f ↦ rw (e, f) (lp, l)
      ]
    ]

    AllLack-clean_loop :
        (r : Bool) (ps ks : List Text) → AllLack ps → AllLack ks → AllLack (clean_loop r ps ks)
    unfolding clean_loop
    AllLack-clean_loop r [] ks lp lk = lk
    AllLack-clean_loop r (p ∷ ps) ks lp lk =
        AllLack-clean_loop r ps (clean_step r p ks) lp.1 (AllLack-clean_step r p ks lp.0 lk)

    AllLack-reverse_onto :
        (xs ys : List Text) → AllLack xs → AllLack ys → AllLack (reverse_onto xs ys)
    unfolding reverse_onto
    AllLack-reverse_onto [] ys lx ly = ly
    AllLack-reverse_onto (x ∷ xs) ys lx ly = AllLack-reverse_onto xs (x ∷ ys) lx.1 (lx.0, ly)

    Lacks-join_with : (ps : List Text) → AllLack ps → Lacks c (join_with 47 ps)
    unfolding join_with
    Lacks-join_with [] l = tt
    Lacks-join_with (p ∷ []) l = l.0
    Lacks-join_with (p ∷ q ∷ ps) l =
        Lacks-append p (47 ∷ join_with 47 (q ∷ ps)) l.0 (n47, Lacks-join_with (q ∷ ps) l.1)

    Lacks-write_path : (r : Bool) (ps : List Text) → AllLack ps → Lacks c (write_path r ps)
    unfolding write_path
    Lacks-write_path true ps l = (n47, Lacks-join_with ps l)
    Lacks-write_path false [] l = (n46, tt)
    Lacks-write_path false (p ∷ ps) l = Lacks-join_with (p ∷ ps) l

    pub Lacks-clean : (s : Text) → Lacks c s → Lacks c (clean s)
    unfolding clean
    Lacks-clean s l =
        Lacks-write_path (is_rooted s)
          (reverse_onto (clean_loop (is_rooted s) (split_on 47 s) []) [])
          (AllLack-reverse_onto (clean_loop (is_rooted s) (split_on 47 s) []) []
            (AllLack-clean_loop (is_rooted s) (split_on 47 s) [] (AllLack-split_on 47 s l) tt) tt)

    Lacks-dir_of :
        (s : Text) (o : Option (Text × Text)) → cut_last 47 s ≡ o → Lacks c s → Lacks c (dir_of o)
    unfolding dir_of
    Lacks-dir_of s none m l = (n46, tt)
    Lacks-dir_of s (some (a, b)) m l = Lacks-clean (a ++ 47 ∷ []) (
        Lacks-append a (47 ∷ [])
          (Lacks-before a (47 ∷ b) (subst (Lacks c) (cut_last_sound 47 s a b m) l)) (n47, tt))

    pub Lacks-dir : (s : Text) → Lacks c s → Lacks c (dir s)
    unfolding dir
    Lacks-dir s l = Lacks-dir_of s (cut_last 47 s) refl l
