-- ===== src/PoolPolicy/Order.antt =====
-- What a pool relies on of its policy, as a record of laws, and the laws of the comparison
-- functions by the shape of their keys. PoolPolicy/Laws shows them for the whole table.
use rsplib.Base.{
  ℕ, ◌<◌, ◌^◌, List, [], ◌∷◌, ◌≡◌, ◌⊎◌, inl, inr, refl, arith, Ordering, lt, eq, IsLawful, ℤ,
  ascending, descending, All,
}
use rsplib.PoolElement.{PoolElementNode, Flags, account}
use rsplib.PoolPolicy.{PoolPolicy, run_initialize, run_update, run_prepare}
use rsplib.Storage.Order.{IsSorted}

-- The fields that the handlespace writes where an element stands.
pub record Marks : Type 0 where
  pub flags : Flags
  pub checksum : ℕ
  pub home : ℕ
  pub timer_code : ℕ
  pub timer : ℕ
  pub socket : ℤ
  pub assoc : ℕ

abbrev pub marks : PoolElementNode → Marks
marks e = record {
  flags = e.flags;
  checksum = e.checksum;
  home = e.home_registrar_identifier;
  timer_code = e.timer_code;
  timer = e.timer_time_stamp;
  socket = e.connection_socket_descriptor;
  assoc = e.connection_assoc_id;
}

abbrev pub with_marks : PoolElementNode → Marks → PoolElementNode
with_marks e m = record e {
  flags = m.flags;
  checksum = m.checksum;
  home_registrar_identifier = m.home;
  timer_code = m.timer_code;
  timer_time_stamp = m.timer;
  connection_socket_descriptor = m.socket;
  connection_assoc_id = m.assoc;
}

abbrev pub with_seq : PoolElementNode → ℕ → PoolElementNode
with_seq e n = record e { seq_number = n }

-- A comparison function sorts strictly, takes two elements for the same only if they share the
-- sequence number or the identifier, and keeps its order when the sequence numbers are given anew
-- in the same order, and does not look at what the handlespace writes.
pub record IsComparison (cmp : PoolElementNode → PoolElementNode → Ordering) : Type 0 where
  pub lawful : IsLawful cmp
  pub distinguishes :
      (a b : PoolElementNode)
      → cmp a b ≡ eq
      → (a.seq_number ≡ b.seq_number) ⊎ (a.identifier ≡ b.identifier)
  pub renumbers :
      (a b : PoolElementNode) (n m : ℕ)
      → cmp a b ≡ lt
      → n < m
      → cmp (with_seq a n) (with_seq b m) ≡ lt
  pub ignores_marks :
      (a b : PoolElementNode) (f g : Marks) → cmp (with_marks a f) (with_marks b g) ≡ cmp a b

-- A round counter is a `uint32_t`.
abbrev pub FitsRound : PoolElementNode → Type 0
FitsRound e = e.round_counter < 2 ^ 32

-- The element `e` with the counters and the value of `e'`, which a policy may write
abbrev pub with_counters : (e e' : PoolElementNode) → PoolElementNode
with_counters e e' = record e {
  round_counter = e'.round_counter;
  virtual_counter = e'.virtual_counter;
  degradation = e'.degradation;
  value = e'.value;
}

-- `e'` is the element `e` but for its counters and its value.
pub record Keeps (e e' : PoolElementNode) : Type 0 where
  pub same_identifier : e'.identifier ≡ e.identifier
  pub same_account : account e' ≡ account e
  pub same_seq : e'.seq_number ≡ e.seq_number
  pub same_settings : e'.policy_settings ≡ e.policy_settings
  pub only_counters : e' ≡ with_counters e e'
  pub fits : FitsRound e → FitsRound e'

-- The lists agree, element by element, but for the counters and the values.
abbrev pub KeepAll : List PoolElementNode → List PoolElementNode → Type 0
KeepAll [] [] = Unit
KeepAll [] (e' ∷ es') = ⊥
KeepAll (e ∷ es) [] = ⊥
KeepAll (e ∷ es) (e' ∷ es') = Keeps e e' × KeepAll es es'

pub Keeps-refl : (e : PoolElementNode) → Keeps e e
Keeps-refl e = record {
  same_identifier = refl;
  same_account = refl;
  same_seq = refl;
  same_settings = refl;
  only_counters = refl;
  fits = λ h. h;
}

pub KeepAll-refl : (es : List PoolElementNode) → KeepAll es es
KeepAll-refl [] = tt
KeepAll-refl (e ∷ es) = (Keeps-refl e, KeepAll-refl es)

pub record IsPolicy (p : PoolPolicy) : Type 0 where
  pub compares : IsComparison p.comparison
  pub update_keeps : (e : PoolElementNode) → Keeps e (run_update p e)
  pub initialize_keeps :
      (es : List PoolElementNode) (e : PoolElementNode)
      → All FitsRound es
      → Keeps e (run_initialize p es e)
  pub prepare_keeps : (es : List PoolElementNode) → KeepAll es (run_prepare p es)
  pub prepare_sorted :
      (es : List PoolElementNode)
      → All FitsRound es
      → IsSorted p.comparison es
      → IsSorted p.comparison (run_prepare p es)

pub by_seq : IsComparison (λ a b. ascending a.seq_number b.seq_number eq)
by_seq = record {
  lawful = record {
    same_key = λ a. ground arith;
    same_place = λ a b c h g. ground arith;
    flips_down = λ a b h. ground arith;
    flips_up = λ a b h. ground arith;
    chains = λ a b c h g. ground arith;
  };
  distinguishes = λ a b h. inl (ground arith);
  renumbers = λ a b n m h l. ground arith;
  ignores_marks = λ a b f g. refl;
}

pub by_identifier : IsComparison (λ a b. ascending a.identifier b.identifier eq)
by_identifier = record {
  lawful = record {
    same_key = λ a. ground arith;
    same_place = λ a b c h g. ground arith;
    flips_down = λ a b h. ground arith;
    flips_up = λ a b h. ground arith;
    chains = λ a b c h g. ground arith;
  };
  distinguishes = λ a b h. inr (ground arith);
  renumbers = λ a b n m h l. h;
  ignores_marks = λ a b f g. refl;
}

module _ (k : PoolElementNode → ℕ) (same : (e : PoolElementNode) (n : ℕ) → k (with_seq e n) ≡ k e)
    (markless : (e : PoolElementNode) (f : Marks) → k (with_marks e f) ≡ k e) where
  pub by_key : IsComparison (λ a b. ascending (k a) (k b) (ascending a.seq_number b.seq_number eq))
  by_key = record {
    lawful = record {
      same_key = λ a. ground arith;
      same_place = λ a b c h g. ground arith;
      flips_down = λ a b h. ground arith;
      flips_up = λ a b h. ground arith;
      chains = λ a b c h g. ground arith;
    };
    distinguishes = λ a b h. inl (ground arith);
    renumbers = λ a b n m h l. ground (arith, same a n, same b m);
    ignores_marks = λ a b f g. rw (markless a f, markless b g) refl;
  }

  pub by_key_descending :
      IsComparison (λ a b. descending (k a) (k b) (ascending a.seq_number b.seq_number eq))
  by_key_descending = record {
    lawful = record {
      same_key = λ a. ground arith;
      same_place = λ a b c h g. ground arith;
      flips_down = λ a b h. ground arith;
      flips_up = λ a b h. ground arith;
      chains = λ a b c h g. ground arith;
    };
    distinguishes = λ a b h. inl (ground arith);
    renumbers = λ a b n m h l. ground (arith, same a n, same b m);
    ignores_marks = λ a b f g. rw (markless a f, markless b g) refl;
  }

pub by_counters : IsComparison (λ a b.
    ascending a.round_counter b.round_counter
      (ascending a.virtual_counter b.virtual_counter (ascending a.seq_number b.seq_number eq)))
by_counters = record {
  lawful = record {
    same_key = λ a. ground arith;
    same_place = λ a b c h g. ground arith;
    flips_down = λ a b h. ground arith;
    flips_up = λ a b h. ground arith;
    chains = λ a b c h g. ground arith;
  };
  distinguishes = λ a b h. inl (ground arith);
  renumbers = λ a b n m h l. ground arith;
  ignores_marks = λ a b f g. refl;
}
