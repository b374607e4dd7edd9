-- ===== src/Store/ReadModel/Once.antt =====
-- Inserts that do nothing on a conflict: made again, a sequence of them changes no row.
use solana_dashboard.Common.{ℕ, ◌+◌, ◌≡◌, refl, Bool, true, ◌&&◌, ◌||◌, List, [], ◌∷◌, ◌++◌, arith}
use solana_dashboard.Store.ReadModel.{Events, is_any, insert_once}

module _ {R : Type 0} (same : R → R → Bool) (stamp : ℕ → R → R) where
  unfoldable pub insert_all_once : List R → Events R → Events R
  insert_all_once [] e = e
  insert_all_once (x ∷ xs) e = insert_all_once xs (insert_once same stamp x e)

  all_there : List R → List R → Bool
  all_there [] rows = true
  all_there (x ∷ xs) rows = is_any same x rows && all_there xs rows

  is_any-append :
      (x : R) (ys zs : List R) → is_any same x (ys ++ zs) ≡ (is_any same x ys || is_any same x zs)
  is_any-append x [] zs = refl
  is_any-append x (y ∷ ys) zs = ground (arith, is_any-append x ys zs)

  -- An insert keeps what is there.
  insert_once-keeps :
      (x y : R) (e : Events R)
      → is_any same x e.rows ≡ true
      → is_any same x (insert_once same stamp y e).rows ≡ true
  unfolding insert_once
  insert_once-keeps x y e h = ground (arith, is_any-append x e.rows (stamp e.next_seq y ∷ []))

  insert_all_once-keeps :
      (x : R) (ys : List R) (e : Events R)
      → is_any same x e.rows ≡ true
      → is_any same x (insert_all_once ys e).rows ≡ true
  unfolding insert_all_once
  insert_all_once-keeps x [] e h = h
  insert_all_once-keeps x (y ∷ ys) e h =
      insert_all_once-keeps x ys (insert_once same stamp y e) (insert_once-keeps x y e h)

  insert_all_once-idle :
      (xs : List R) (e : Events R)
      → all_there xs e.rows ≡ true
      → (insert_all_once xs e).rows ≡ e.rows
  unfolding insert_all_once all_there insert_once
  insert_all_once-idle [] e h = refl
  insert_all_once-idle (x ∷ xs) e h =
      ground (arith, insert_all_once-idle xs (record { rows = e.rows; next_seq = e.next_seq + 1 }))

  module _ (stamped : (n : ℕ) (x : R) → same (stamp n x) x ≡ true) where
    insert_once-there :
        (x : R) (e : Events R) → is_any same x (insert_once same stamp x e).rows ≡ true
    unfolding insert_once
    insert_once-there x e =
        ground (arith, is_any-append x e.rows (stamp e.next_seq x ∷ []), stamped e.next_seq x)

    insert_all_once-there :
        (xs : List R) (e : Events R) → all_there xs (insert_all_once xs e).rows ≡ true
    unfolding insert_all_once all_there
    insert_all_once-there [] e = refl
    insert_all_once-there (x ∷ xs) e = ground (
      arith,
      insert_all_once-keeps x xs (insert_once same stamp x e) (insert_once-there x e),
      insert_all_once-there xs (insert_once same stamp x e),
    )

    pub insert_all_once_twice :
        (xs : List R) (e : Events R)
        → (insert_all_once xs (insert_all_once xs e)).rows ≡ (insert_all_once xs e).rows
    insert_all_once_twice xs e =
        insert_all_once-idle xs (insert_all_once xs e) (insert_all_once-there xs e)
