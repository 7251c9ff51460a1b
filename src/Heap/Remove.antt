-- ===== src/Heap/Remove.antt =====
-- Pop, Delete and Peek of heap.go.
use kube_queue.Base.{
  ℕ, suc, ◌-◌, ◌<◌, ◌≡◌, refl, ap, fun_ext, ite, if◌then◌else◌, is_some, Bool, false, Option, none,
  some, inl, inr, String, lookup, erase, lookup-erase, length, length-take, take, get_elem?,
  get_elem?-take, lt_of_get_elem?, value, panic, Yields, yields, value-Yields, Yields-bind, arith,
  text_dec, dec_lt, Option-cases,
}
use kube_queue.Container
use kube_queue.Container.Order.{IsStrictWeak, IsHeap, parent, root_first}
use kube_queue.Container.Operations.{IsReady, pop-IsReady, remove-IsReady}
use kube_queue.Heap.{
  GoError, errorf, KeyFunc, LessFunc, HeapItem, Data, len, pop, peek, interface, delete, delete_as,
  pop_top,
}
use kube_queue.Heap.View.{
  view, index_of, index_of-view, at, IsConsistent, lift, lift-IsStrictWeak, IsWellFormed, removed,
  at-some, lookup-view-none, removed_absent,
}
use kube_queue.Heap.Swap.{data-IsLawful}

module _ {ℓ} {A : Type ℓ} where
  -- The state without its last entry.
  shortened : Data A → ℕ → String → Data A
  unfolding erase
  shortened u n k = record { items = erase k u.items; queue = take n u.queue }

  module _ (u : Data A) (n : ℕ) (k : String) (item : HeapItem A) (c : IsConsistent u)
      (size : len u ≡ suc n) (ek : get_elem? u.queue n ≡ some k)
      (found : lookup k u.items ≡ some item) (x : item.index ≡ n) where
    after : Data A
    unfolding shortened
    after = shortened u n k

    pop-after : pop u ≡ value (some item.obj, after)
    unfolding pop after len
    pop-after = let last : length u.queue - 1 ≡ n = omega arith in ground arith

    view-after : view after ≡ removed k (view u)
    unfolding view after
    view-after = fun_ext λ j. ground (arith, lookup-erase k j u.items)

    index_after : (j : String) → index_of after j ≡ ite (text_dec k j) none (index_of u j)
    unfolding index_of after
    index_after j = ground (arith, lookup-erase k j u.items)

    queue_after : (i : ℕ) → get_elem? after.queue i ≡ ite (dec_lt i n) (get_elem? u.queue i) none
    unfolding after
    queue_after i = get_elem?-take n u.queue i

    len_after : len after ≡ n
    unfolding len after
    len_after = length-take n u.queue (omega arith)

    after-IsConsistent : IsConsistent after
    unfolding len
    after-IsConsistent = record {
      listed = λ i j e. ground (arith, c.listed i j, c.listed n k, queue_after i, index_after j);
      placed = λ i j e.
          ground
            (arith, c.placed i j, queue_after i, index_after j, lt_of_get_elem? u.queue i {x = j});
    }

    at-after : (i : ℕ) → i < n → at after i ≡ at u i
    unfolding at len
    at-after i p =
        let (j, item', ej, found', x', o) = at-some u i c (omega arith) in
        rw view-after (ground (arith, queue_after i, c.listed n k, c.listed i j))

    after-IsWellFormed : {lt : A → A → Bool} → IsHeap (lift lt) n (at u) → IsWellFormed lt after
    after-IsWellFormed heap = record {
      consistent = after-IsConsistent;
      heap = rw len_after (λ m a b. ground (arith, heap m, at-after m, at-after (parent m)));
    }

module _ {ℓ} {A : Type ℓ} (key_func : KeyFunc A) (less_func : LessFunc A) {lt : A → A → Bool}
    (less_is : (x y : A) → less_func x y ≡ value (lt x y)) (weak : IsStrictWeak lt) where
  -- No object of the heap is before the one that stands first in the queue.
  first-le :
      (h : Data A) (k : String) (o : A)
      → IsWellFormed lt h
      → at h 0 ≡ some (k, o)
      → (j : String) (x : A) → view h j ≡ some x
      → lt x o ≡ false
  unfolding at len
  first-le h k o w e j x present =
      let (item, found, same, index) = index_of-view h j present in
      let place = w.consistent.placed item.index j index in
      let first =
        root_first (lift lt) (lift-IsStrictWeak weak) (len h) (at h) item.index w.heap
          (lt_of_get_elem? h.queue item.index place) in
      ground (arith, first)

  -- The call returns the object that was under a key, without an error, in a well-formed heap
  -- with that key removed.
  pub record IsTaken (h : Data A) (k : String) (o : A) (r : Option A × Data A) : Type ℓ where
    pub object : r.0 ≡ some o
    pub wellformed : IsWellFormed lt r.1
    pub held : view h k ≡ some o
    pub content : view r.1 ≡ removed k (view h)
    pub size : suc (len r.1) ≡ len h

  at-view : (h : Data A) (i : ℕ) (k : String) (o : A) → at h i ≡ some (k, o) → view h k ≡ some o
  unfolding at
  at-view h i k o e = elim (Option-cases (get_elem? h.queue i)) [
    | inl out ↦ absurd (ground arith)
    | inr (j, there) ↦ elim (Option-cases (view h j)) [
      | inl absent ↦ absurd (ground arith)
      | inr (x, present) ↦ ground arith
    ]
  ]

  IsReady-pop :
      (h u : Data A) (n i : ℕ) (k : String) (o : A)
      → at h i ≡ some (k, o)
      → len h ≡ suc n
      → IsReady
          (interface less_func)
          IsConsistent
          at
          view
          (lift-IsStrictWeak weak)
          (data-IsLawful less_func lt less_is)
          n
          i
          h
          u
      → Yields (IsTaken h k o) (pop u)
  unfolding interface len after
  IsReady-pop h u n i k o e whole ready =
      let c = ready.valid in
      let (k', item, ek, found, x, last) = at-some u n c (omega (arith, ready.size)) in
      let entry : ◌≡◌ {A = Option (String × A)} (some (k', item.obj)) (some (k, o)) =
        cc (last, ready.last, e) in
      let same_key : k' ≡ k = cc entry in
      let same_obj : item.obj ≡ o = cc entry in
      value-Yields (some item.obj, shortened u n k') (pop-after u n k' item c ready.size ek found x)
        (record {
          object = ap some same_obj;
          wellformed = after-IsWellFormed u n k' item c ready.size ek found x ready.heap;
          held = at-view h i k o e;
          content =
              rw (← same_key, ← ready.same_view) (view-after u n k' item c ready.size ek found x);
          size = omega (arith, len_after u n k' item c ready.size ek found x);
        })

  -- What Pop returns: the object under some key, which Peek returns and before which no object of
  -- the heap is, without an error, and a well-formed heap of the others.
  pub record IsPopped (h : Data A) (r : Option A × Option (GoError A) × Data A) : Type ℓ where
    pub no_error : r.1 ≡ none
    pub key : String
    pub obj : A
    pub taken : IsTaken h key obj (r.0, r.2)
    pub peeked : peek h ≡ value (some obj)
    pub first : (j : String) (x : A) → view h j ≡ some x → lt x obj ≡ false

  -- Where the comparison returns a strict weak order, Pop of a well-formed heap that is not empty
  -- ends without an error: it returns the object that Peek returns, before which no object of the
  -- heap is, and leaves a well-formed heap without the key of that object.
  pub pop_top-IsPopped :
      (h : Data A) → IsWellFormed lt h → 0 < len h → Yields (IsPopped h) (pop_top less_func h)
  unfolding pop_top interface len peek
  pop_top-IsPopped h w p =
      let n = len h - 1 in
      let size : len h ≡ suc n = omega arith in
      let (k, item, ek, found, x, entry) = at-some h 0 w.consistent p in
      Yields-bind
        (pop-IsReady (interface less_func) IsConsistent at view (lift-IsStrictWeak weak)
          (data-IsLawful less_func lt less_is) h n size w.consistent
          (λ m a b. w.heap m a (omega arith))
          (λ u ready. IsReady-pop h u n 0 k item.obj entry size ready))
        λ (r, h') taken.
          value-Yields (some item.obj, none, h') (rw taken.object)
            (record {
              no_error = refl;
              key = k;
              obj = item.obj;
              taken = rw taken.object at taken;
              peeked = ground arith;
              first = first-le h k item.obj w entry;
            })

  -- Pop of an empty heap panics: it does not return the error that the source provides.
  pub pop_top-empty : (h : Data A) → len h ≡ 0 → pop_top less_func h ≡ panic
  unfolding pop_top interface Container.pop len
  pop_top-empty h e = rw (e, Container.pop)

  -- The call ends in a well-formed heap without the key, with an error exactly if the key was
  -- absent before.
  pub record IsDeleted (h : Data A) (key : String) (r : Data A × Option (GoError A)) : Type ℓ where
    pub wellformed : IsWellFormed lt r.0
    pub result : r.1 ≡ (if is_some (view h key) then none else some (errorf "object not found"))
    pub content : view r.0 ≡ removed key (view h)

  delete_as-IsDeleted :
      (h : Data A) (obj o : A) (key : String)
      → IsWellFormed lt h
      → view h key ≡ some o
      → Yields (IsDeleted h key) (delete_as less_func h obj (key, none))
  unfolding delete_as at len
  delete_as-IsDeleted h obj o key w e =
      let (item, found, same, index) = index_of-view h key e in
      let place = w.consistent.placed item.index key index in
      let inside = lt_of_get_elem? h.queue item.index place in
      let size : len h ≡ suc (len h - 1) = omega arith in
      rw (found, delete_as)
        (Yields-bind
          (remove-IsReady (interface less_func) IsConsistent at view (lift-IsStrictWeak weak)
            (data-IsLawful less_func lt less_is) h (len h - 1) item.index size (omega arith)
            w.consistent (λ m a b. w.heap m a (omega arith))
            (λ u ready. IsReady-pop h u (len h - 1) item.index key o (ground arith) size ready))
          λ (_, h') taken.
            yields
              (record { wellformed = taken.wellformed; result = rw e; content = taken.content }))

  delete_as-absent :
      (h : Data A) (obj : A) (key : String)
      → IsWellFormed lt h
      → view h key ≡ none
      → Yields (IsDeleted h key) (delete_as less_func h obj (key, none))
  unfolding delete_as view
  delete_as-absent h obj key w e = elim (Option-cases (lookup key h.items)) [
    | inl absent ↦
        rw (absent, delete_as)
          (yields (record {
            wellformed = w;
            result = rw (lookup-view-none h key absent);
            content = removed_absent h key (lookup-view-none h key absent);
          }))
    | inr (item, found) ↦ absurd (ground arith)
  ]

  -- Where the comparison returns a strict weak order, Delete of an object that has a key from a
  -- well-formed heap ends in a well-formed heap without that key, and reports an error exactly if
  -- the key was absent.
  pub delete-IsDeleted :
      (h : Data A) (obj : A) (key : String)
      → IsWellFormed lt h
      → key_func obj ≡ (key, none)
      → Yields (IsDeleted h key) (delete key_func less_func h obj)
  unfolding delete
  delete-IsDeleted h obj key w e = elim (Option-cases (view h key)) [
    | inl absent ↦ rw e (delete_as-absent h obj key w absent)
    | inr (o, held) ↦ rw e (delete_as-IsDeleted h obj o key w held)
  ]

  -- An empty queue of keys has an empty content.
  pub len-zero-view : (h : Data A) (k : String) → IsConsistent h → len h ≡ 0 → view h k ≡ none
  unfolding len
  len-zero-view h k c e = elim (Option-cases (view h k)) [
    | inl absent ↦ absent
    | inr (o, present) ↦
        let (item, found, same, index) = index_of-view h k present in
        absurd (omega (arith, lt_of_get_elem? h.queue item.index (c.placed item.index k index)))
  ]

  -- Where the comparison returns a strict weak order, Peek of a well-formed heap that is not empty
  -- returns an object of the heap before which no object of the heap is.
  pub peek-first :
      (h : Data A)
      → IsWellFormed lt h
      → 0 < len h
      → (k : String) × (o : A) × (peek h ≡ value (some o))
        × (view h k ≡ some o)
        × ((j : String) (x : A) → view h j ≡ some x → lt x o ≡ false)
  unfolding peek len
  peek-first h w p =
      let (k, item, ek, found, x, entry) = at-some h 0 w.consistent p in
      (k, item.obj, ground arith, at-view h 0 k item.obj entry, first-le h k item.obj w entry)

  -- Peek of an empty heap returns nil.
  pub peek-empty : (h : Data A) → len h ≡ 0 → peek h ≡ value none
  unfolding peek len
  peek-empty h e = ground arith
