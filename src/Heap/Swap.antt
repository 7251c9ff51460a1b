-- ===== src/Heap/Swap.antt =====
-- `data` is a lawful heap.Interface: Less compares the objects, and Swap keeps the map and the
-- queue consistent.
use kube_queue.Base.{
  ◌∙◌, ℕ, ◌<◌, ◌≡◌, fun_ext, ite, Bool, some, String, lookup, insert, lookup-insert, length,
  get_elem?, set, length-set, get_elem?-set, value, Yields, value-Yields, arith, text_dec,
  ℕ_discrete,
}
use kube_queue.Container.Order.{exchange}
use kube_queue.Container.Contract.{IsSwapped, IsLawful}
use kube_queue.Heap.{HeapItem, Data, LessFunc, len, set_index, swap, less, interface}
use kube_queue.Heap.View.{view, index_of, at, IsConsistent, lift, at-some}

module _ {ℓ} {A : Type ℓ} where
  -- The state after Swap, for the items and the keys at the two indices.
  swapped : Data A → ℕ → ℕ → String → String → HeapItem A → HeapItem A → Data A
  unfolding insert
  swapped h i j ki kj item_i item_j = record {
    items =
        insert ki (record item_i { index = j }) (insert kj (record item_j { index = i }) h.items);
    queue = set (set h.queue i kj) j ki;
  }

  module _ (less_func : LessFunc A) (h : Data A) (i j : ℕ) (ki kj : String)
      (item_i item_j : HeapItem A) (c : IsConsistent h) (p : i < length h.queue)
      (q : j < length h.queue) (ei : get_elem? h.queue i ≡ some ki)
      (ej : get_elem? h.queue j ≡ some kj) (fi : lookup ki h.items ≡ some item_i)
      (fj : lookup kj h.items ≡ some item_j) (xi : item_i.index ≡ i) (xj : item_j.index ≡ j) where
    after : Data A
    unfolding swapped
    after = swapped h i j ki kj item_i item_j

    queue_after :
        (n : ℕ)
        → get_elem? after.queue n
          ≡ ite (ℕ_discrete j n) (some ki) (ite (ℕ_discrete i n) (some kj) (get_elem? h.queue n))
    unfolding after
    queue_after n =
        rw (
          get_elem?-set (set h.queue i kj) j n ki (rw length-set q),
          get_elem?-set h.queue i n kj p,
        )

    swap-swapped : swap h i j ≡ value after
    unfolding swap set_index after
    swap-swapped = ground (
      arith,
      c.listed i ki ei,
      c.listed j kj ej,
      queue_after i,
      queue_after j,
      lookup-insert kj ki (record item_j { index = i }) h.items,
    )

    view-after : (k : String) → view after k ≡ view h k
    unfolding view after
    view-after k = ground (
      arith,
      lookup-insert ki k (record item_i { index = j })
          (insert kj (record item_j { index = i }) h.items),
      lookup-insert kj k (record item_j { index = i }) h.items,
    )

    index_after :
        (k : String)
        → index_of after k
          ≡ ite (text_dec ki k) (some j) (ite (text_dec kj k) (some i) (index_of h k))
    unfolding index_of after
    index_after k = ground (
      arith,
      lookup-insert ki k (record item_i { index = j })
          (insert kj (record item_j { index = i }) h.items),
      lookup-insert kj k (record item_j { index = i }) h.items,
    )

    index_i : index_of h ki ≡ some i
    unfolding index_of
    index_i = ground arith

    index_j : index_of h kj ≡ some j
    unfolding index_of
    index_j = ground arith

    after-IsConsistent : IsConsistent after
    after-IsConsistent = record {
      listed = λ n k e. ground (
        arith,
        index_i,
        index_j,
        queue_after n,
        index_after k,
        c.listed n k,
        c.placed i k,
        c.placed j k,
        c.placed n ki,
        c.placed n kj,
      );
      placed = λ n k e. ground (
        arith,
        index_i,
        index_j,
        queue_after n,
        index_after k,
        c.placed n k,
        c.listed i k,
        c.listed j k,
        c.listed n ki,
        c.listed n kj,
      );
    }

    at-after : at after ≡ exchange (at h) i j
    unfolding at
    at-after = fun_ext λ n. rw (fun_ext view-after) (ground (arith, queue_after n))

    swap-IsSwapped :
        Yields (IsSwapped (interface less_func) IsConsistent at view i j h) (swap h i j)
    unfolding interface after
    swap-IsSwapped = value-Yields after swap-swapped (record {
      valid = after-IsConsistent;
      same_len = same_len;
      same_view = fun_ext view-after;
      exchanged = at-after;
    })
      where
        same_len : len after ≡ len h
        same_len = length-set (set h.queue i kj) j ki ∙ length-set h.queue i kj

  module _ (less_func : LessFunc A) (lt : A → A → Bool)
      (less_is : (x y : A) → less_func x y ≡ value (lt x y)) where
    less-lift :
        (h : Data A) (i j : ℕ)
        → IsConsistent h
        → i < len h
        → j < len h
        → less less_func h i j ≡ value (lift lt (at h i) (at h j))
    unfolding less len
    less-lift h i j c p q =
        let (ki, item_i, ei, fi, xi, oi) = at-some h i c p in
        let (kj, item_j, ej, fj, xj, oj) = at-some h j c q in
        ground (arith, less_is item_i.obj item_j.obj)

    -- The contract of container/heap holds of `data`.
    pub data-IsLawful : IsLawful (interface less_func) IsConsistent at view (lift lt)
    unfolding interface len
    data-IsLawful = record {
      less_ok = less-lift;
      swap_ok = λ h i j c p q.
          let (ki, item_i, ei, fi, xi, oi) = at-some h i c p in
          let (kj, item_j, ej, fj, xj, oj) = at-some h j c q in
          swap-IsSwapped less_func h i j ki kj item_i item_j c p q ei ej fi fj xi xj;
    }
