-- ===== src/Heap/Insert.antt =====
-- Add and AddIfNotPresent of heap.go.
use kube_queue.Base.{
  ◌∙◌, ℕ, suc, ◌<◌, ◌≡◌, refl, fun_ext, Bool, Option, none, some, inl, inr, String, lookup, insert,
  lookup-insert, length, length-append, get_elem?, get_elem?-append, lt_of_get_elem?, value, Yields,
  yields, Yields-bind, ◌>>=◌, arith, text_dec, ℕ_discrete, Option-cases, ite, if◌then◌else◌,
  is_some, [], ◌∷◌, ◌≢◌,
}
use kube_queue.Container
use kube_queue.Container.Order.{IsStrictWeak, IsHeap, FixInv, parent}
use kube_queue.Container.Operations.{fix_restores, push_restores}
use kube_queue.Heap.{
  GoError, KeyFunc, LessFunc, HeapItem, ItemKeyValue, Data, len, push, interface, add, add_as,
  add_if_not_present_as, add_if_not_present,
}
use kube_queue.Heap.View.{
  view, index_of, at, IsConsistent, lift, lift-IsStrictWeak, IsWellFormed, written, at-some,
  lookup-view-none,
}
use kube_queue.Heap.Swap.{data-IsLawful}

module _ {ℓ} {A : Type ℓ} where
  module _ (h : Data A) (kv : ItemKeyValue A) (c : IsConsistent h)
      (absent : lookup kv.key h.items ≡ none) where
    queue_push :
        (n : ℕ)
        → get_elem? (push h kv).queue n
          ≡ ite (ℕ_discrete (length h.queue) n) (some kv.key) (get_elem? h.queue n)
    unfolding push
    queue_push n = get_elem?-append h.queue kv.key n

    view_push : view (push h kv) ≡ written kv.key kv.obj (view h)
    unfolding view push
    view_push = fun_ext λ k.
        ground
          (arith, lookup-insert kv.key k (record { obj = kv.obj; index = length h.queue }) h.items)

    index_push :
        (k : String)
        → index_of (push h kv) k ≡ ite (text_dec kv.key k) (some (length h.queue)) (index_of h k)
    unfolding index_of push
    index_push k =
        ground
          (arith, lookup-insert kv.key k (record { obj = kv.obj; index = length h.queue }) h.items)

    index_absent : index_of h kv.key ≡ none
    unfolding index_of
    index_absent = rw (absent, index_of)

    push-IsConsistent : IsConsistent (push h kv)
    push-IsConsistent = record {
      listed = λ n k e. ground (arith, queue_push n, index_push k, index_absent, c.listed n k);
      placed = λ n k e.
          ground
            (arith, queue_push n, index_push k, c.placed n k, lt_of_get_elem? h.queue n {x = k});
    }

    at_push : (n : ℕ) → n < len h → at (push h kv) n ≡ at h n
    unfolding at len
    at_push n p =
        let (k, item, ek, found, x, o) = at-some h n c p in
        rw (view_push) (ground (arith, queue_push n))

    len_push : len (push h kv) ≡ suc (len h)
    unfolding len push
    len_push = omega (arith, length-append h.queue (kv.key ∷ []))

  -- The state with the object of a present key replaced, which Add hands to Fix.
  replaced : Data A → String → A → HeapItem A → Data A
  unfolding insert
  replaced h key obj item = record h { items = insert key (record item { obj = obj }) h.items }

  module _ (h : Data A) (key : String) (obj : A) (item : HeapItem A) (c : IsConsistent h)
      (found : lookup key h.items ≡ some item) where
    after : Data A
    unfolding replaced
    after = replaced h key obj item

    view_replaced : view after ≡ written key obj (view h)
    unfolding view after
    view_replaced =
        fun_ext λ k. ground (arith, lookup-insert key k (record item { obj = obj }) h.items)

    index_replaced : (k : String) → index_of after k ≡ index_of h k
    unfolding index_of after
    index_replaced k = ground (arith, lookup-insert key k (record item { obj = obj }) h.items)

    replaced-IsConsistent : IsConsistent after
    unfolding after
    replaced-IsConsistent = record {
      listed = λ n k e. index_replaced k ∙ c.listed n k e;
      placed = λ n k e. ground (arith, c.placed n k, index_replaced k);
    }

    index_found : index_of h key ≡ some item.index
    unfolding index_of
    index_found = rw (found, index_of)

    at_replaced : (n : ℕ) → n ≢ item.index → at after n ≡ at h n
    unfolding at after
    at_replaced n ne = rw (view_replaced) (elim (Option-cases (get_elem? h.queue n)) [
      | inl e ↦ rw e
      | inr (k, e) ↦ ground (arith, c.listed n k, index_found)
    ])

    replaced-FixInv :
        {lt : A → A → Bool}
        → IsStrictWeak lt
        → IsHeap (lift lt) (len h) (at h)
        → FixInv (lift lt) (len h) (at after) item.index
    replaced-FixInv {lt} weak heap = record {
      edges = λ m a b r s. ground (arith, heap m, at_replaced m, at_replaced (parent m));
      bridged = λ m a b r s. ground (
        arith,
        heap m,
        heap item.index,
        at_replaced m,
        at_replaced (parent item.index),
        (lift-IsStrictWeak weak).trans (at h (parent item.index)) (at h item.index) (at h m),
      );
    }

module _ {ℓ} {A : Type ℓ} (key_func : KeyFunc A) (less_func : LessFunc A) {lt : A → A → Bool}
    (less_is : (x y : A) → less_func x y ≡ value (lt x y)) (weak : IsStrictWeak lt) where
  -- The call ends without an error, in a well-formed heap with the content `f`.
  pub record IsStored (f : String → Option A) (r : Data A × Option (GoError A)) : Type ℓ where
    pub wellformed : IsWellFormed lt r.0
    pub no_error : r.1 ≡ none
    pub content : view r.0 ≡ f

  push-IsStored :
      (h : Data A) (key : String) (obj : A)
      → IsWellFormed lt h
      → lookup key h.items ≡ none
      → Yields (IsStored (written key obj (view h))) (
          Container.push (interface less_func) h (record { key = key; obj = obj }) >>= λ h'.
          value (h', none))
  unfolding interface
  push-IsStored h key obj w absent =
      let kv : ItemKeyValue A = record { key = key; obj = obj } in
      let laws = data-IsLawful less_func lt less_is in
      Yields-bind
        (push_restores (interface less_func) IsConsistent at view (lift-IsStrictWeak weak) laws h kv
          (len h) (push-IsConsistent h kv w.consistent absent) (len_push h kv w.consistent absent)
          (λ m a b. ground (
            arith,
            w.heap m,
            at_push h kv w.consistent absent m,
            at_push h kv w.consistent absent (parent m),
          )))
        λ t (kept, heap). yields (record {
          wellformed = record {
            consistent = kept.valid;
            heap = rw (kept.same_len, len_push h kv w.consistent absent) heap;
          };
          no_error = refl;
          content = kept.same_view ∙ view_push h kv w.consistent absent;
        })

  fix-IsStored :
      (h : Data A) (key : String) (obj : A) (item : HeapItem A)
      → IsWellFormed lt h
      → lookup key h.items ≡ some item
      → Yields (IsStored (written key obj (view h))) (
          Container.fix (interface less_func) (replaced h key obj item) item.index >>= λ h'.
          value (h', none))
  unfolding interface after
  fix-IsStored h key obj item w found =
      let c = w.consistent in
      let laws = data-IsLawful less_func lt less_is in
      Yields-bind
        (fix_restores (interface less_func) IsConsistent at view (lift-IsStrictWeak weak) laws
          (replaced h key obj item) item.index
          (lt_of_get_elem? h.queue item.index
            (c.placed item.index key (index_found h key obj item c found)))
          (replaced-IsConsistent h key obj item c found)
          (replaced-FixInv h key obj item c found weak w.heap))
        λ t (kept, heap). yields (record {
          wellformed = record { consistent = kept.valid; heap = rw kept.same_len heap };
          no_error = refl;
          content = kept.same_view ∙ view_replaced h key obj item c found;
        })

  add_as-IsStored :
      (h : Data A) (obj : A) (key : String)
      → IsWellFormed lt h
      → Yields (IsStored (written key obj (view h))) (add_as less_func h obj (key, none))
  unfolding add_as replaced
  add_as-IsStored h obj key w = elim (Option-cases (lookup key h.items)) [
    | inl absent ↦ rw (absent, add_as) (push-IsStored h key obj w absent)
    | inr (item, found) ↦ rw (found, add_as) (fix-IsStored h key obj item w found)
  ]

  -- Where the comparison returns a strict weak order, Add of an object that has a key to a
  -- well-formed heap ends without an error in a well-formed heap, with the object under its key and
  -- every other key as it was.
  pub add-IsStored :
      (h : Data A) (obj : A) (key : String)
      → IsWellFormed lt h
      → key_func obj ≡ (key, none)
      → Yields (IsStored (written key obj (view h))) (add key_func less_func h obj)
  unfolding add
  add-IsStored h obj key w e = rw e (add_as-IsStored h obj key w)

  add_if_not_present_as-IsStored :
      (h : Data A) (obj : A) (key : String)
      → IsWellFormed lt h
      → Yields
          (IsStored (if is_some (view h key) then view h else written key obj (view h)))
          (add_if_not_present_as less_func h obj (key, none))
  unfolding add_if_not_present_as view
  add_if_not_present_as-IsStored h obj key w = elim (Option-cases (lookup key h.items)) [
    | inl absent ↦
        rw (absent, add_if_not_present_as, lookup-view-none h key absent)
          (push-IsStored h key obj w absent)
    | inr (item, found) ↦
        let held : view h key ≡ some item.obj = ground arith in
        rw (found, add_if_not_present_as, held)
          (yields (record { wellformed = w; no_error = refl; content = refl }))
  ]

  -- Where the comparison returns a strict weak order, AddIfNotPresent of an object that has a key
  -- to a well-formed heap ends without an error in a well-formed heap, and writes the object only
  -- if the key is absent.
  pub add_if_not_present-IsStored :
      (h : Data A) (obj : A) (key : String)
      → IsWellFormed lt h
      → key_func obj ≡ (key, none)
      → Yields
          (IsStored (if is_some (view h key) then view h else written key obj (view h)))
          (add_if_not_present key_func less_func h obj)
  unfolding add_if_not_present
  add_if_not_present-IsStored h obj key w e = rw e (add_if_not_present_as-IsStored h obj key w)
