-- ===== src/Patches/Sound.antt =====
-- The state of a change set says what is in the tree, whatever fails.
use loop_agent.Prelude.{
  ◌≡◌, inl, inr, refl, sym, ap, ◌∙◌, subst, Bool, true, false, Option, none, some, List, [], ◌∷◌,
  arith, Bool-cases, ◌&&◌,
}
use loop_agent.Patches.{
  Commit, committed, commit_fails, refresh_fails, apply_patch, may_discard, after_discard,
  Operation, apply_it, discard_it, undo_it, operate, left, World, Git, is_state, is_open,
  digest_matches, compensate, after_apply, apply_change_set, discard_change_set, restore,
  after_undo, with_patch, undo_change_set,
}

module _ {Tree Patch : Type 0} (git : Git Tree Patch) where
  -- What git documents of `git apply`: after a patch went in, the head is the same, and in reverse it
  -- is taken out.
  pub record IsGit : Type 0 where
    pub same_head :
        (t t' : Tree) (p : Patch) → git.apply false t p ≡ some t' → git.at_base t' ≡ git.at_base t
    pub reversible :
        (t t' : Tree) (p : Patch) → git.apply false t p ≡ some t' → git.check true t' p ≡ true
    pub reverses :
        (t t' : Tree) (p : Patch) → git.apply false t p ≡ some t' → git.apply true t' p ≡ some t

  -- What a patch that went in has passed.
  applied_parts :
      (dirty : Bool) (t t' : Tree) (p : Patch)
      → apply_patch git false dirty t p ≡ some t'
      → (git.at_base t ≡ true) × (git.check false t p ≡ true) × (git.apply false t p ≡ some t')
  unfolding apply_patch
  applied_parts true t t' p h = (ground arith, ground arith, ground arith)
  applied_parts false t t' p h = (ground arith, ground arith, ground arith)

  -- What was applied can be taken out, whatever else the tree holds.
  apply_patch-reverse :
      IsGit
      → (t t' : Tree) (p : Patch) → apply_patch git false false t p ≡ some t'
      → apply_patch git true false t' p ≡ some t
  unfolding apply_patch
  apply_patch-reverse laws t t' p h =
      let (b, c, a) = applied_parts false t t' p h in
      rw (laws.same_head t t' p a, b, laws.reversible t t' p a) (laws.reverses t t' p a)

  -- What is applied to a clean tree is applied where the tree need not be clean.
  apply_patch-dirty :
      (t t' : Tree) (p : Patch)
      → apply_patch git false false t p ≡ some t'
      → apply_patch git false true t p ≡ some t'
  unfolding apply_patch
  apply_patch-dirty t t' p h = let (b, c, a) = applied_parts false t t' p h in rw (b, c) a

  -- The tree is the base with the saved patch where the state is `applied`;
  -- else it is the base.
  pub data Sound (base : Tree) : World Tree Patch → Type 0 where
    applied :
        (w : World Tree Patch) (p : Patch)
        → w.change_state ≡ some "applied"
        → w.patch_file ≡ some p
        → apply_patch git false false base p ≡ some w.tree
        → Sound base w
    untouched :
        (w : World Tree Patch)
        → is_state w.change_state "applied" ≡ false
        → w.tree ≡ base
        → Sound base w

  open_untouched :
      (base : Tree) (w : World Tree Patch)
      → is_open w.change_state ≡ true
      → Sound base w
      → (is_state w.change_state "applied" ≡ false) × (w.tree ≡ base)
  open_untouched base w o (untouched _ s t) = (s, t)
  open_untouched base w o (applied _ p s f g) =
      let e : is_open w.change_state ≡ false = ap is_open s in cc

  discardable_untouched :
      (base : Tree) (w : World Tree Patch)
      → may_discard w.change_state ≡ true
      → Sound base w
      → (is_state w.change_state "applied" ≡ false) × (w.tree ≡ base)
  discardable_untouched base w o (untouched _ s t) = (s, t)
  discardable_untouched base w o (applied _ p s f g) =
      let e : may_discard w.change_state ≡ false = ap may_discard s in cc

  -- The refresh raises only where nothing was written before it.
  abbrev pub Refreshes : Commit → Type 0
  Refreshes refresh_fails = ⊥
  Refreshes _ = Unit {0}

  abbrev pub AllRefresh : List (Operation Patch) → Type 0
  AllRefresh [] = Unit {0}
  AllRefresh (apply_it can p commit ∷ ops) = Refreshes commit × AllRefresh ops
  AllRefresh (discard_it terminal commit ∷ ops) = AllRefresh ops
  AllRefresh (undo_it commit ∷ ops) = Refreshes commit × AllRefresh ops

  module _ (base : Tree) (laws : IsGit) where
    compensate-Sound :
        (w : World Tree Patch) (p : Patch) (t : Tree)
        → is_state w.change_state "applied" ≡ false
        → w.tree ≡ base
        → apply_patch git false false w.tree p ≡ some t
        → Sound base (left (compensate git w p t (apply_patch git true false t p)))
    unfolding compensate
    compensate-Sound w p t s b a =
        subst (λ o. Sound base (left (compensate git w p t o)))
          (sym (apply_patch-reverse laws w.tree t p a)) (untouched _ s b)

    after_apply-Sound :
        (w : World Tree Patch) (p : Patch) (commit : Commit) (o : Option Tree)
        → Refreshes commit
        → is_state w.change_state "applied" ≡ false
        → w.tree ≡ base
        → apply_patch git false false w.tree p ≡ o
        → Sound base (left (after_apply git w p commit o))
    unfolding after_apply
    after_apply-Sound w p commit none c s b a = untouched _ s b
    after_apply-Sound w p committed (some t) c s b a =
        applied _ p refl refl (ap (λ x. apply_patch git false false x p) (sym b) ∙ a)
    after_apply-Sound w p commit_fails (some t) c s b a = compensate-Sound w p t s b a
    after_apply-Sound w p refresh_fails (some t) c s b a = absurd c

    apply_change_set-Sound :
        (can_apply : Bool) (p : Patch) (commit : Commit) (w : World Tree Patch)
        → Refreshes commit
        → Sound base w
        → Sound base (left (apply_change_set git can_apply p commit w))
    unfolding apply_change_set
    apply_change_set-Sound can_apply p commit w c h =
        elim (Bool-cases (is_open w.change_state && can_apply)) [
          | inr e ↦ rw e h
          | inl e ↦
              let o : is_open w.change_state ≡ true = ground arith in
              let (s, b) = open_untouched base w o h in
              rw e (after_apply-Sound w p commit (apply_patch git false false w.tree p) c s b refl)
        ]

    after_discard-Sound :
        (commit : Commit) (w : World Tree Patch)
        → w.tree ≡ base
        → Sound base w
        → Sound base (left (after_discard git w commit))
    unfolding after_discard
    after_discard-Sound committed w b h = untouched _ refl b
    after_discard-Sound commit_fails w b h = h
    after_discard-Sound refresh_fails w b h = untouched _ refl b

    discard_change_set-Sound :
        (terminal : Bool) (commit : Commit) (w : World Tree Patch)
        → Sound base w
        → Sound base (left (discard_change_set git terminal commit w))
    unfolding discard_change_set
    discard_change_set-Sound terminal commit w h =
        elim (Bool-cases (may_discard w.change_state && terminal)) [
          | inr e ↦ rw e h
          | inl e ↦
              let o : may_discard w.change_state ≡ true = ground arith in
              let (s, b) = discardable_untouched base w o h in
              rw e (after_discard-Sound commit w b h)
        ]

    -- Undoing from an applied state.
    after_undo-Sound :
        (w : World Tree Patch) (p : Patch) (commit : Commit)
        → Refreshes commit
        → w.change_state ≡ some "applied"
        → w.patch_file ≡ some p
        → apply_patch git false false base p ≡ some w.tree
        → Sound base (left (after_undo git w p commit (apply_patch git true false w.tree p)))
    unfolding after_undo restore
    after_undo-Sound w p committed c s f a =
        subst (λ o. Sound base (left (after_undo git w p committed o)))
          (sym (apply_patch-reverse laws base w.tree p a)) (untouched _ refl refl)
    after_undo-Sound w p commit_fails c s f a =
        subst (λ o. Sound base (left (after_undo git w p commit_fails o)))
          (sym (apply_patch-reverse laws base w.tree p a))
          (subst (λ o. Sound base (left (restore git w base o)))
            (sym (apply_patch-dirty base w.tree p a)) (applied _ p s f a))
    after_undo-Sound w p refresh_fails c s f a = absurd c

    with_patch-Sound :
        (w : World Tree Patch) (p : Patch) (commit : Commit)
        → Refreshes commit
        → w.change_state ≡ some "applied"
        → w.patch_file ≡ some p
        → apply_patch git false false base p ≡ some w.tree
        → Sound base (left (with_patch git w commit (some p)))
    unfolding with_patch
    with_patch-Sound w p commit c s f a =
        elim (Bool-cases (digest_matches w.applied_patch_sha256 (git.digest p))) [
          | inl m ↦ rw m (after_undo-Sound w p commit c s f a)
          | inr m ↦ rw m (applied w p s f a)
        ]

    undo_change_set-Sound :
        (commit : Commit) (w : World Tree Patch)
        → Refreshes commit
        → Sound base w
        → Sound base (left (undo_change_set git commit w))
    unfolding undo_change_set
    undo_change_set-Sound commit w c (untouched _ s b) = rw s (untouched w s b)
    undo_change_set-Sound commit w c (applied _ p s f a) =
        let e : is_state w.change_state "applied" ≡ true = ap (λ x. is_state x "applied") s in
        rw e (
          subst (λ o. Sound base (left (with_patch git w commit o))) (sym f)
            (with_patch-Sound w p commit c s f a))

    -- Whatever the order in which a change set is applied, undone and discarded, and whichever commits
    -- of the database fail without a trace: the tree is the base with the saved patch exactly while
    -- the state is `applied`, and else the base, where a patch that git put in it takes out, no commit
    -- of an apply or an undo is durable while the refresh behind it raises, and nothing else changes
    -- the tree or the patch.
    pub operate-Sound :
        (ops : List (Operation Patch)) (w : World Tree Patch)
        → AllRefresh ops
        → Sound base w
        → Sound base (operate git ops w)
    unfolding operate
    operate-Sound [] w c h = h
    operate-Sound (apply_it can p commit ∷ ops) w c h =
        operate-Sound ops _ c.1 (apply_change_set-Sound can p commit w c.0 h)
    operate-Sound (discard_it terminal commit ∷ ops) w c h =
        operate-Sound ops _ c (discard_change_set-Sound terminal commit w h)
    operate-Sound (undo_it commit ∷ ops) w c h =
        operate-Sound ops _ c.1 (undo_change_set-Sound commit w c.0 h)
