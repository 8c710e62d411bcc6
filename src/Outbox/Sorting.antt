-- ===== src/Outbox/Sorting.antt =====
-- The order of a lesson's messages, internal/rpc/chat/dao/mongo.go: the rows in the order of a sort, and
-- what a filter on the ones behind a message keeps.
use liveclass.Prelude.{
  ℕ, zero, suc, ◌≤◌, ◌<◌, ◌≡◌, ◌≢◌, refl, sym, ap, Bool, true, false, ◌&&◌, String, some, List, [],
  ◌∷◌, ◌++◌, Table, length, take, keep_if, All, All-map, leb, nat_eq, string_eq, Bool-cases, inl,
  inr, arith,
}
use liveclass.Outbox.{Message, is_earlier}
use liveclass.Outbox.History.{insert, sorted, last, page, newest_first}

-- The order of texts that the database sorts by.
pub record IsIdOrder (id_before : String → String → Bool) : Type 0 where
  pub asym : (a b : String) → id_before a b ≡ true → id_before b a ≡ false
  pub trans : (a b c : String) → id_before a b ≡ true → id_before b c ≡ true → id_before a c ≡ true
  pub total : (a b : String) → a ≢ b → id_before a b ≡ false → id_before b a ≡ true

-- The unique index on message_id.
abbrev pub IsUnique : Table String Message → Type 0
IsUnique [] = Unit
IsUnique ((k, m) ∷ t) = All (λ row. m.message_id ≢ row.1.message_id) t × IsUnique t

pub record IsOrder (before : Message → Message → Bool) : Type 0 where
  pub asym : (a b : Message) → before a b ≡ true → before b a ≡ false
  pub trans : (a b c : Message) → before a b ≡ true → before b c ≡ true → before a c ≡ true
  pub total : (a b : Message) → a.message_id ≢ b.message_id → before a b ≡ false → before b a ≡ true

pub newest_first-IsOrder :
    (id_before : String → String → Bool) → IsIdOrder id_before → IsOrder (newest_first id_before)
newest_first-IsOrder id_before o = record {
  asym = λ a b h. ground (arith, o.asym b.message_id a.message_id);
  trans = λ a b c h k. ground (arith, o.trans c.message_id b.message_id a.message_id);
  total = λ a b d h. ground (arith, o.total b.message_id a.message_id (λ e. d (sym e)));
}

pub earlier-IsOrder :
    (id_before : String → String → Bool) → IsIdOrder id_before → IsOrder (is_earlier id_before)
earlier-IsOrder id_before o = record {
  asym = λ a b h. ground (arith, o.asym a.message_id b.message_id);
  trans = λ a b c h k. ground (arith, o.trans a.message_id b.message_id c.message_id);
  total = λ a b d h. ground (arith, o.total a.message_id b.message_id d);
}

-- A filter that implies another one may come after it.
pub keep_if-implied :
    (p q : Message → Bool) (ms : List Message)
    → ((m : Message) → q m ≡ true → p m ≡ true)
    → keep_if q (keep_if p ms) ≡ keep_if q ms
keep_if-implied p q [] h = refl
keep_if-implied p q (m ∷ ms) h = ground (arith, h m, keep_if-implied p q ms h)

pub keep_if-and :
    (p q : Message → Bool) (ms : List Message)
    → keep_if (λ m. p m && q m) ms ≡ keep_if q (keep_if p ms)
keep_if-and p q [] = refl
keep_if-and p q (m ∷ ms) = ground (arith, keep_if-and p q ms)

keep_if-All :
    (p : Message → Bool) (ms : List Message) → All (λ m. p m ≡ true) ms → keep_if p ms ≡ ms
keep_if-All p [] h = refl
keep_if-All p (m ∷ ms) h = rw h.0 (ap (λ xs. m ∷ xs) (keep_if-All p ms h.1))

pub keep_if-passes : (p : Message → Bool) (ms : List Message) → All (λ m. p m ≡ true) (keep_if p ms)
keep_if-passes p [] = tt
keep_if-passes p (m ∷ ms) = elim (Bool-cases (p m)) [
  | inl e ↦ rw e (e, keep_if-passes p ms)
  | inr e ↦ rw e (keep_if-passes p ms)
]

module _ (before : Message → Message → Bool) where
  abbrev pub IsSorted : List Message → Type 0
  IsSorted [] = Unit
  IsSorted (m ∷ ms) = All (λ x. before m x ≡ true) ms × IsSorted ms

  pub All-keep_if :
      (P : Message → Type 0) (p : Message → Bool) (ms : List Message)
      → All P ms
      → All P (keep_if p ms)
  All-keep_if P p [] h = tt
  All-keep_if P p (m ∷ ms) h = elim (Bool-cases (p m)) [
    | inl e ↦ rw e (h.0, All-keep_if P p ms h.1)
    | inr e ↦ rw e (All-keep_if P p ms h.1)
  ]

  pub keep_if-IsSorted :
      (p : Message → Bool) (ms : List Message) → IsSorted ms → IsSorted (keep_if p ms)
  keep_if-IsSorted p [] h = tt
  keep_if-IsSorted p (m ∷ ms) h = elim (Bool-cases (p m)) [
    | inl e ↦ rw e (All-keep_if (λ x. before m x ≡ true) p ms h.0, keep_if-IsSorted p ms h.1)
    | inr e ↦ rw e (keep_if-IsSorted p ms h.1)
  ]

  All-insert :
      (P : Message → Type 0) (m : Message) (ms : List Message)
      → P m
      → All P ms
      → All P (insert before m ms)
  unfolding insert
  All-insert P m [] h a = (h, tt)
  All-insert P m (x ∷ xs) h a = elim (Bool-cases (before m x)) [
    | inl e ↦ rw e (h, a)
    | inr e ↦ rw e (a.0, All-insert P m xs h a.1)
  ]

  pub All-sorted :
      (P : Message → Type 0) (t : Table String Message)
      → All (λ row. P row.1) t
      → All P (sorted before t)
  unfolding sorted
  All-sorted P [] h = tt
  All-sorted P ((k, m) ∷ t) h = All-insert P m (sorted before t) h.0 (All-sorted P t h.1)

  module _ (o : IsOrder before) where
    insert-IsSorted :
        (m : Message) (ms : List Message)
        → All (λ x. m.message_id ≢ x.message_id) ms
        → IsSorted ms
        → IsSorted (insert before m ms)
    unfolding insert
    insert-IsSorted m [] d h = (tt, tt)
    insert-IsSorted m (x ∷ xs) d h = elim (Bool-cases (before m x)) [
      | inl e ↦ rw e ((e, All-map xs (λ y l. o.trans m x y e l) h.0), h)
      | inr e ↦ rw e (
        All-insert (λ y. before x y ≡ true) m xs (o.total m x d.0 e) h.0,
        insert-IsSorted m xs d.1 h.1,
      )
    ]

    pub sorted-IsSorted : (t : Table String Message) → IsUnique t → IsSorted (sorted before t)
    unfolding sorted
    sorted-IsSorted [] u = tt
    sorted-IsSorted ((k, m) ∷ t) u =
        insert-IsSorted m (sorted before t) (All-sorted (λ x. m.message_id ≢ x.message_id) t u.0)
          (sorted-IsSorted t u.1)

    self-behind : (m : Message) → before m m ≡ false
    self-behind m = elim (Bool-cases (before m m)) [ inl e ↦ o.asym m m e | inr e ↦ e ]

    pub All-middle :
        (P : Message → Type 0) (xs : List Message) (m : Message) (ys : List Message)
        → All P (xs ++ (m ∷ ys))
        → P m
    All-middle P [] m ys h = h.0
    All-middle P (x ∷ xs) m ys h = All-middle P xs m ys h.1

    -- The entries behind one of a sorted list are the rest of it.
    pub keep_if-behind :
        (xs : List Message) (m : Message) (ys : List Message)
        → IsSorted (xs ++ (m ∷ ys))
        → keep_if (before m) (xs ++ (m ∷ ys)) ≡ ys
    keep_if-behind [] m ys h = rw (self-behind m) (keep_if-All (before m) ys h.0)
    keep_if-behind (x ∷ xs) m ys h =
        rw (o.asym x m (All-middle (λ y. before x y ≡ true) xs m ys h.0))
          (keep_if-behind xs m ys h.1)

-- A page's messages are the head of a list; the last one of a page with more behind it splits the list.
pub record Cut (n : ℕ) (ms : List Message) : Type 0 where
  pub front : List Message
  pub middle : Message
  pub back : List Message
  pub list : ms ≡ front ++ (middle ∷ back)
  pub head : take n ms ≡ front ++ (middle ∷ [])
  pub short : length back < length ms

pub Cut-at : (n : ℕ) (ms : List Message) → n < length ms → 0 < n → Cut n ms
Cut-at zero ms l p = absurd (omega (arith, p))
Cut-at (suc n) [] l p = absurd (omega (arith, l))
Cut-at (suc zero) (m ∷ ms) l p = record {
  front = [];
  middle = m;
  back = ms;
  list = refl;
  head = refl;
  short = omega arith;
}
Cut-at (suc (suc n)) (m ∷ ms) l p =
    let c = Cut-at (suc n) ms (omega (arith, l)) (omega arith) in
    record {
      front = m ∷ c.front;
      middle = c.middle;
      back = c.back;
      list = ap (λ xs. m ∷ xs) c.list;
      head = ap (λ xs. m ∷ xs) c.head;
      short = omega (arith, c.short);
    }

pub last-append : (xs : List Message) (m : Message) → last (xs ++ (m ∷ [])) ≡ some m
unfolding last
last-append [] m = refl
last-append (x ∷ []) m = refl
last-append (x ∷ y ∷ xs) m = last-append (y ∷ xs) m

take-long : (n : ℕ) (ms : List Message) → length ms ≤ n → take n ms ≡ ms
take-long zero [] l = refl
take-long zero (m ∷ ms) l = absurd (omega (arith, l))
take-long (suc n) [] l = refl
take-long (suc n) (m ∷ ms) l = ap (λ xs. m ∷ xs) (take-long n ms (omega (arith, l)))

take-take : (n : ℕ) (ms : List Message) → take n (take (suc n) ms) ≡ take n ms
take-take zero ms = refl
take-take (suc n) [] = refl
take-take (suc n) (m ∷ ms) = ap (λ xs. m ∷ xs) (take-take n ms)

length-take-long : (n : ℕ) (ms : List Message) → n < length ms → length (take (suc n) ms) ≡ suc n
length-take-long n [] l = absurd (omega (arith, l))
length-take-long zero (m ∷ ms) l = refl
length-take-long (suc n) (m ∷ ms) l = ap suc (length-take-long n ms (omega (arith, l)))

-- The last page, and a page that is not.
pub page-last : (n : ℕ) (ms : List Message) → length ms ≤ n → page n ms ≡ (ms, false)
unfolding page
page-last n ms l =
    let all : take (suc n) ms ≡ ms = take-long (suc n) ms (omega (arith, l)) in
    let short : leb (length ms) n ≡ true = ground (arith, l) in rw (all, short) refl

pub page-more : (n : ℕ) (ms : List Message) → n < length ms → page n ms ≡ (take n ms, true)
unfolding page
page-more n ms l =
    let long : leb (length (take (suc n) ms)) n ≡ false = ground (arith, length-take-long n ms l) in
    rw (long, take-take n ms) refl
