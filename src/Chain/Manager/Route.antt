-- ===== src/Chain/Manager/Route.antt =====
-- reorgTo goes down to the branch point and up to the tip of the scratch chain.
use sunyata.Common.{
  ℕ, zero, suc, ◌+◌, ◌≡◌, ◌≤◌, ◌<◌, refl, sym, ap, ◌∙◌, subst, arith, true, false, some, List, [],
  ◌∷◌, ◌++◌, All,
}
use sunyata.Common.Outcome.{Outcome, ok}
use sunyata.Types.{Crypto, ChainIndex, BlockHeader, Time, chain_index_eq}
use sunyata.Identity.{parent_index, header_index}
use sunyata.Consensus.State.{State, Checkpoint}
use sunyata.Consensus.Scratch.{ScratchChain, index_at, valid_tip}
use sunyata.Consensus.Apply.{ApplyUpdate, RevertUpdate, apply_block, revert_block}
use sunyata.Chain.{StoreError, ManagerStore}
use sunyata.Chain.Reorg.{chain_index_eq_sound}
use sunyata.Chain.Manager.{
  Subscriber, Manager, Done, revert_tip, apply_tip, revert_to, apply_to, in_best, rebase_from,
  reorg_to,
}
use sunyata.Chain.Manager.Tip.{
  Working, Synced, Reaches, calling_lem, continuing_lem, revert_tip-Reaches, apply_tip-Reaches,
}

-- The chain with the blocks of the path on top, one after the other.
abbrev pub extended : List ChainIndex → List ChainIndex → List ChainIndex
extended [] chain = chain
extended (p ∷ path) chain = extended path (p ∷ chain)

-- The block after a state: the next one of `rebase`, or that of the scratch chain.
abbrev pub Next : ScratchChain → List ChainIndex → State → ChainIndex → Type 0
Next sc [] s p = index_at sc (s.index.height + 1) ≡ some p
Next sc (n ∷ rebase) s p = n ≡ p

abbrev pub rest_of : List ChainIndex → List ChainIndex
rest_of [] = []
rest_of (n ∷ rebase) = rebase

-- The indices of the headers from the base down to the one before the branch point, the last first.
abbrev pub rebase_of :
    (BlockHeader → ChainIndex) → BlockHeader → List BlockHeader → List ChainIndex → List ChainIndex
rebase_of index h [] acc = acc
rebase_of index h (g ∷ gs) acc = rebase_of index g gs (index h ∷ acc)

module _ (crypto : Crypto) (look : ChainIndex → Outcome StoreError Checkpoint) where
  -- The checkpoints lead from a state down to that of `base`, by blocks that RevertBlock takes.
  abbrev pub Down : ChainIndex → State → List ChainIndex → State → Type 0
  Down base s [] s' = (chain_index_eq s.index base ≡ true) × (s' ≡ s)
  Down base s (x ∷ trail) s' =
      (chain_index_eq s.index base ≡ false)
      × (c : Checkpoint) × (p : Checkpoint) × (ru : RevertUpdate) × (look s.index ≡ ok c)
      × (look (parent_index c.block.header) ≡ ok p)
      × (revert_block crypto p.state c.block ≡ some ru)
      × (s.index.height ≡ p.state.index.height + 1)
      × Down base p.state trail s'

  -- The checkpoints lead from a state up to the tip of the scratch chain, by blocks that ApplyBlock
  -- takes; the last state is what ApplyBlock makes of them.
  abbrev pub Up : ScratchChain → List ChainIndex → State → List ChainIndex → State → Type 0
  Up sc rebase s [] s' = (chain_index_eq s.index (valid_tip sc) ≡ true) × (s' ≡ s)
  Up sc rebase s (p ∷ path) s' =
      (chain_index_eq s.index (valid_tip sc) ≡ false)
      × Next sc rebase s p
      × (c : Checkpoint) × (au : ApplyUpdate) × (look p ≡ ok c)
      × (parent_index c.block.header ≡ s.index)
      × (c.state.index ≡ p)
      × (apply_block crypto s c.block ≡ some au)
      × (au.state.index ≡ p)
      × (p.height ≡ s.index.height + 1)
      × Up sc (rest_of rebase) au.state path s'

  Up-height :
      (sc : ScratchChain) (rebase : List ChainIndex) (s : State) (path : List ChainIndex)
      (s' : State)
      → Up sc rebase s path s'
      → s.index.height ≤ (valid_tip sc).height
  Up-height sc rebase s [] s' (at, e) =
      omega
        (arith, ap (λ (i : ChainIndex). i.height) (chain_index_eq_sound s.index (valid_tip sc) at))
  Up-height sc rebase s (p ∷ path) s'
        (off, next, c, au, found, at, same, applied, index, up, more) =
      omega (
        arith,
        up,
        ap (λ (i : ChainIndex). i.height) index,
        Up-height sc (rest_of rebase) au.state path s' more,
      )

  Up-end :
      (sc : ScratchChain) (rebase : List ChainIndex) (s : State) (path : List ChainIndex)
      (s' : State)
      → Up sc rebase s path s'
      → s'.index ≡ valid_tip sc
  Up-end sc rebase s [] s' (at, e) =
      ap (λ (x : State). x.index) e ∙ chain_index_eq_sound s.index (valid_tip sc) at
  Up-end sc rebase s (p ∷ path) s' (off, next, c, au, found, at, same, applied, index, up, more) =
      Up-end sc (rest_of rebase) au.state path s' more

module _ (crypto : Crypto) {Store Sub : Type 0} (ops : ManagerStore Store)
    (sub : Subscriber Sub) where
  -- The headers lead from the base of the scratch chain down to one in the best chain.
  abbrev pub Search : Manager Store Sub → BlockHeader → List BlockHeader → BlockHeader → Type 0
  Search m h [] top = (in_best crypto ops sub m h ≡ ok true) × (h ≡ top)
  Search m h (g ∷ gs) top =
      (in_best crypto ops sub m h ≡ ok false)
      × (ops.header (parent_index h) m.store ≡ ok g)
      × (h.height ≡ g.height + 1)
      × Search m g gs top

module _ (crypto : Crypto) {Store Sub : Type 0} (ops : ManagerStore Store) (sub : Subscriber Sub)
    (best : Store → List ChainIndex) (view : Sub → List ChainIndex)
    (working : Working ops sub best view) (look : ChainIndex → Outcome StoreError Checkpoint) where
  -- The blocks of `trail` are reverted.
  revert_to-Reaches :
      (fuel : ℕ) (base y : ChainIndex) (m : Manager Store Sub) (s : State)
      (trail rest : List ChainIndex) (s' : State)
      → m.cs ≡ s
      → Synced crypto ops sub best view working look (trail ++ y ∷ rest) m
      → Down crypto look base s trail s'
      → s.index.height < fuel
      → Reaches crypto ops sub best view working look s'
          (y ∷ rest)
          (revert_to crypto ops sub fuel base m)
  unfolding revert_to
  revert_to-Reaches zero base y m s trail rest s' cs at down enough = absurd (omega (arith, enough))
  revert_to-Reaches (suc fuel) base y m s [] rest s' cs at (there, e) enough =
      rw (ap (λ (t : State). chain_index_eq t.index base) cs ∙ there) (m, refl, cs ∙ sym e, at)
  revert_to-Reaches (suc fuel) base y m s (x ∷ []) rest s' cs at
        (off, c, p, ru, found, found', reverted, up, down) enough =
      let (m', e, cs', at') =
        revert_tip-Reaches crypto ops sub best view working look m c p ru x y rest at
          (ap (λ (t : State). look t.index) cs ∙ found) found' reverted in
      rw (ap (λ (t : State). chain_index_eq t.index base) cs ∙ off) (
        continuing_lem (Reaches crypto ops sub best view working look s' (y ∷ rest))
          (revert_tip crypto ops sub m) m' _ e
          (revert_to-Reaches fuel base y m' p.state [] rest s' cs' at' down
            (omega (arith, enough, up))))
  revert_to-Reaches (suc fuel) base y m s (x ∷ z ∷ trail) rest s' cs at
        (off, c, p, ru, found, found', reverted, up, down) enough =
      let (m', e, cs', at') =
        revert_tip-Reaches crypto ops sub best view working look m c p ru x z (trail ++ y ∷ rest) at
          (ap (λ (t : State). look t.index) cs ∙ found) found' reverted in
      rw (ap (λ (t : State). chain_index_eq t.index base) cs ∙ off) (
        continuing_lem (Reaches crypto ops sub best view working look s' (y ∷ rest))
          (revert_tip crypto ops sub m) m' _ e
          (revert_to-Reaches fuel base y m' p.state (z ∷ trail) rest s' cs' at' down
            (omega (arith, enough, up))))

  -- The blocks of `path` are applied.
  apply_to-Reaches :
      (fuel : ℕ) (now : Time) (sc : ScratchChain) (rebase : List ChainIndex) (m : Manager Store Sub)
      (s : State) (path chain : List ChainIndex) (s' : State)
      → m.cs ≡ s
      → Synced crypto ops sub best view working look chain m
      → Up crypto look sc rebase s path s'
      → (valid_tip sc).height < fuel + s.index.height
      → Reaches crypto ops sub best view working look s'
          (extended path chain)
          (apply_to crypto ops sub fuel now sc rebase m)
  unfolding apply_to
  apply_to-Reaches zero now sc rebase m s path chain s' cs at up enough =
      absurd (omega (arith, enough, Up-height crypto look sc rebase s path s' up))
  apply_to-Reaches (suc fuel) now sc rebase m s [] chain s' cs at (there, e) enough =
      rw (ap (λ (t : State). chain_index_eq t.index (valid_tip sc)) cs ∙ there)
        (m, refl, cs ∙ sym e, at)
  apply_to-Reaches (suc fuel) now sc [] m s (p ∷ path) chain s' cs at
        (off, next, c, au, found, attaches, same, applied, index, up, more) enough =
      let (m', e, cs', at') =
        apply_tip-Reaches crypto ops sub best view working look now m c au chain at
          (ap look index ∙ found) (attaches ∙ ap (λ (t : State). t.index) (sym cs))
          (same ∙ sym index) (ap (λ t. apply_block crypto t c.block) cs ∙ applied) in
      rw
        (
          ap (λ (t : State). chain_index_eq t.index (valid_tip sc)) cs ∙ off,
          ap (λ (t : State). index_at sc (t.index.height + 1)) cs ∙ next,
        )
        (continuing_lem
          (Reaches crypto ops sub best view working look s' (extended path (p ∷ chain)))
          (apply_tip crypto ops sub now p m) m' _
          (ap (λ i. apply_tip crypto ops sub now i m) (sym index) ∙ e)
          (apply_to-Reaches fuel now sc [] m' au.state path (p ∷ chain) s' cs'
            (subst (λ i. Synced crypto ops sub best view working look (i ∷ chain) m') index at')
            more (omega (arith, enough, up, ap (λ (i : ChainIndex). i.height) index))))
  apply_to-Reaches (suc fuel) now sc (n ∷ rebase) m s (p ∷ path) chain s' cs at
        (off, next, c, au, found, attaches, same, applied, index, up, more) enough =
      let (m', e, cs', at') =
        apply_tip-Reaches crypto ops sub best view working look now m c au chain at
          (ap look index ∙ found) (attaches ∙ ap (λ (t : State). t.index) (sym cs))
          (same ∙ sym index) (ap (λ t. apply_block crypto t c.block) cs ∙ applied) in
      rw (ap (λ (t : State). chain_index_eq t.index (valid_tip sc)) cs ∙ off) (
        continuing_lem
          (Reaches crypto ops sub best view working look s' (extended path (p ∷ chain)))
          (apply_tip crypto ops sub now n m) m' _
          (ap (λ i. apply_tip crypto ops sub now i m) (next ∙ sym index) ∙ e)
          (apply_to-Reaches fuel now sc rebase m' au.state path (p ∷ chain) s' cs'
            (subst (λ i. Synced crypto ops sub best view working look (i ∷ chain) m') index at')
            more (omega (arith, enough, up, ap (λ (i : ChainIndex). i.height) index))))

  module _ (now : Time) (sc : ScratchChain) where
    rebase_from-Reaches :
        (fuel : ℕ) (m : Manager Store Sub) (h : BlockHeader) (gs : List BlockHeader)
        (top : BlockHeader) (acc trail rest path : List ChainIndex) (s s' : State)
        → Search crypto ops sub m h gs top
        → Synced crypto ops sub best view working look (trail ++ header_index crypto top ∷ rest) m
        → Down crypto look (header_index crypto top) m.cs trail s
        → Up crypto look sc (rebase_of (header_index crypto) h gs acc) s path s'
        → h.height < fuel
        → Reaches crypto ops sub best view working look s'
            (extended path (header_index crypto top ∷ rest))
            (rebase_from crypto ops sub fuel now sc h acc m)
    unfolding rebase_from
    rebase_from-Reaches zero m h gs top acc trail rest path s s' to_top at down up enough =
        absurd (omega (arith, enough))
    rebase_from-Reaches (suc fuel) m h [] top acc trail rest path s s' (attached, same) at down up
          enough =
        let base = header_index crypto h in
        let index : header_index crypto top ≡ base = ap (header_index crypto) (sym same) in
        let (m', e, cs, at') =
          revert_to-Reaches (m.cs.index.height + 1) base (header_index crypto top) m m.cs trail rest
            s refl at (subst (λ i. Down crypto look i m.cs trail s) index down) (omega arith) in
        let P : Done Store Sub → Type 0 =
          Reaches crypto ops sub best view working look s'
            (extended path (header_index crypto top ∷ rest)) in
        calling_lem P m (in_best crypto ops sub m h) true _ attached (
          continuing_lem P (revert_to crypto ops sub (m.cs.index.height + 1) base m) m' _ e (
            apply_to-Reaches ((valid_tip sc).height + 1) now sc acc m' s path
              (header_index crypto top ∷ rest) s' cs at' up (omega arith)))
    rebase_from-Reaches (suc fuel) m h (g ∷ gs) top acc trail rest path s s'
          (off, header, lower, to_top) at down up enough =
        let P : Done Store Sub → Type 0 =
          Reaches crypto ops sub best view working look s'
            (extended path (header_index crypto top ∷ rest)) in
        calling_lem P m (in_best crypto ops sub m h) false _ off (
          calling_lem P m (ops.header (parent_index h) m.store) g _ header (
            rebase_from-Reaches fuel m g gs top (header_index crypto h ∷ acc) trail rest path s s'
              to_top at down up (omega (arith, enough, lower))))

-- reorgTo returns without an error, and the fuel of its loops is enough, when the store and the
-- subscribers work and the store has what it reads: headers from the base of the scratch chain down
-- to a block `top` of the best chain, checkpoints from the tip down to `top`, over the blocks of
-- `trail`, and checkpoints from there up to the valid tip of the scratch chain, over the blocks of
-- `path`, where ApplyBlock and RevertBlock return. The manager is then at the state that ApplyBlock
-- makes of the blocks of `path`, at the valid tip; in the store's best chain, the blocks of `trail`
-- are replaced by those of `path`; and every subscriber has seen the new best chain, when it had
-- seen the old one. The calls of Flush and mayCommit do not show in the result.
pub reorg_to-extended :
    (crypto : Crypto) {Store Sub : Type 0} (ops : ManagerStore Store) (sub : Subscriber Sub)
    (best : Store → List ChainIndex) (view : Sub → List ChainIndex)
    → Working ops sub best view
    → (now : Time) (sc : ScratchChain) (m : Manager Store Sub) (h top : BlockHeader)
      (gs : List BlockHeader) (trail rest path : List ChainIndex) (s s' : State)
    → ops.header sc.base m.store ≡ ok h
    → h.height ≡ sc.base.height
    → Search crypto ops sub m h gs top
    → best m.store ≡ trail ++ header_index crypto top ∷ rest
    → All (λ v. view v ≡ best m.store) m.subscribers
    → Down crypto (λ i. ops.checkpoint i m.store) (header_index crypto top) m.cs trail s
    → Up crypto
        (λ i. ops.checkpoint i m.store)
        sc
        (rebase_of (header_index crypto) h gs [])
        s
        path
        s'
    → (m' : Manager Store Sub) × (reorg_to crypto ops sub now sc m ≡ (m', ok tt))
      × (m'.cs ≡ s')
      × (m'.cs.index ≡ valid_tip sc)
      × (best m'.store ≡ extended path (header_index crypto top ∷ rest))
      × All (λ v. view v ≡ best m'.store) m'.subscribers
unfolding reorg_to
reorg_to-extended crypto {Store} {Sub} ops sub best view working now sc m h top gs trail rest path s
      s' header height to_top recorded seen down up =
    let look : ChainIndex → Outcome StoreError Checkpoint = λ i. ops.checkpoint i m.store in
    let (m', e, cs, at) =
      calling_lem
        (Reaches crypto ops sub best view working look s'
          (extended path (header_index crypto top ∷ rest)))
        m (ops.header sc.base m.store) h _ header
        (rebase_from-Reaches crypto ops sub best view working look now sc (sc.base.height + 1) m h
          gs top [] trail rest path s s' to_top
          (record {
            kept = λ j. refl;
            recorded = recorded;
            seen = subst (λ t. All (λ v. view v ≡ t) m.subscribers) recorded seen;
          })
          down up (omega (arith, height))) in
    (
      m',
      e,
      cs,
      ap (λ (t : State). t.index) cs
          ∙ Up-end crypto look sc (rebase_of (header_index crypto) h gs []) s path s' up,
      at.recorded,
      subst (λ t. All (λ v. view v ≡ t) m'.subscribers) (sym at.recorded) at.seen,
    )
