-- ===== src/Realtime/Topics.antt =====
-- The map of topics to sets of subscriptions, Hub.subscribers; a subscription is its number.
use solana_dashboard.Common.{
  ℕ, ◌+◌, ◌≡◌, refl, Bool, true, false, not, ◌&&◌, ◌||◌, Option, none, some, String, List, [], ◌∷◌,
  str_eq, eq_iff, ◌==◌, if◌then◌else◌, arith, length,
}

abbrev pub Topics : Type 0
Topics = List (String × List ℕ)

abbrev pub contains : ℕ → List ℕ → Bool
contains id [] = false
contains id (x ∷ xs) = x == id || contains id xs

-- delete(subs, sub)
unfoldable pub without : ℕ → List ℕ → List ℕ
without id [] = []
without id (x ∷ xs) = if x == id then without id xs else x ∷ without id xs

unfoldable pub find_topic : String → Topics → Option (List ℕ)
find_topic topic [] = none
find_topic topic ((key, subs) ∷ topics) =
    if str_eq key topic then some subs else find_topic topic topics

-- The map's part of Subscribe.
unfoldable pub add_sub : String → ℕ → Topics → Topics
add_sub topic id [] = (topic, id ∷ []) ∷ []
add_sub topic id ((key, subs) ∷ topics) =
    if str_eq key topic then (key, id ∷ subs) ∷ topics else (key, subs) ∷ add_sub topic id topics

-- An entry is kept only while its set is not empty.
abbrev keep : String → List ℕ → Topics → Topics
keep key [] topics = topics
keep key (x ∷ xs) topics = (key, x ∷ xs) ∷ topics

-- The map's part of Unsubscribe.
unfoldable pub remove_sub : ℕ → Topics → Topics
remove_sub id [] = []
remove_sub id ((key, subs) ∷ topics) =
    let rest = remove_sub id topics in
    if contains id subs then keep key (without id subs) rest else (key, subs) ∷ rest

-- The map's part of the second half of Publish, for one subscription.
unfoldable pub remove_from : String → ℕ → Topics → Topics
remove_from topic id [] = []
remove_from topic id ((key, subs) ∷ topics) =
    let rest = remove_from topic id topics in
    if str_eq key topic then keep key (without id subs) rest else (key, subs) ∷ rest

-- SubscriberCount and TotalSubscribers
unfoldable pub subscriber_count : String → Topics → ℕ
subscriber_count topic topics = elim (find_topic topic topics) [
  | none ↦ 0
  | some subs ↦ length subs
]

unfoldable pub total_subscribers : Topics → ℕ
total_subscribers [] = 0
total_subscribers ((key, subs) ∷ topics) = length subs + total_subscribers topics

-- Is a subscription in the set of a topic?
unfoldable pub listed : String → ℕ → Topics → Bool
listed topic id [] = false
listed topic id ((key, subs) ∷ topics) =
    str_eq key topic && contains id subs || listed topic id topics

contains-without :
    (j id : ℕ) (xs : List ℕ) → contains j (without id xs) ≡ (contains j xs && not (j == id))
unfolding without
contains-without j id [] = refl
contains-without j id (x ∷ xs) = ground (arith, contains-without j id xs)

listed-keep :
    (topic : String) (j : ℕ) (key : String) (subs : List ℕ) (topics : Topics)
    → listed topic j (keep key subs topics)
      ≡ (str_eq key topic && contains j subs || listed topic j topics)
unfolding listed
listed-keep topic j key [] topics = ground arith
listed-keep topic j key (x ∷ xs) topics = refl

pub listed-add_sub :
    (t : String) (j : ℕ) (topic : String) (id : ℕ) (topics : Topics)
    → listed t j (add_sub topic id topics) ≡ (str_eq topic t && id == j || listed t j topics)
unfolding listed add_sub
listed-add_sub t j topic id [] = ground arith
listed-add_sub t j topic id ((key, subs) ∷ topics) =
    ground
      (arith, eq_iff key topic, eq_iff key t, eq_iff topic t, listed-add_sub t j topic id topics)

pub listed-remove_sub :
    (t : String) (j id : ℕ) (topics : Topics)
    → listed t j (remove_sub id topics) ≡ (listed t j topics && not (j == id))
unfolding listed remove_sub
listed-remove_sub t j id [] = refl
listed-remove_sub t j id ((key, subs) ∷ topics) = ground (
  arith,
  listed-keep t j key (without id subs) (remove_sub id topics),
  contains-without j id subs,
  listed-remove_sub t j id topics,
)

pub listed-remove_from :
    (t : String) (j : ℕ) (topic : String) (id : ℕ) (topics : Topics)
    → listed t j (remove_from topic id topics)
      ≡ (listed t j topics && not (str_eq topic t && j == id))
unfolding listed remove_from
listed-remove_from t j topic id [] = refl
listed-remove_from t j topic id ((key, subs) ∷ topics) = ground (
  arith,
  eq_iff key topic,
  eq_iff key t,
  eq_iff topic t,
  listed-keep t j key (without id subs) (remove_from topic id topics),
  contains-without j id subs,
  listed-remove_from t j topic id topics,
)

pub listed-find_topic :
    (topic : String) (j : ℕ) (topics : Topics) (subs : List ℕ)
    → find_topic topic topics ≡ some subs
    → contains j subs ≡ true
    → listed topic j topics ≡ true
unfolding listed find_topic
listed-find_topic topic j [] subs h c = ground arith
listed-find_topic topic j ((key, subs') ∷ topics) subs h c =
    ground (arith, listed-find_topic topic j topics subs)
