-- ===== src/Projector/Runner/Passes.antt =====
-- What a pass over the entries does: the writes of each entry in turn, and how far it gets.
use solana_dashboard.Common.{
  ℕ, ◌+◌, ◌≡◌, refl, sym, ◌∙◌, ap, inl, inr, Option, none, some, List, [], ◌∷◌, length, arith,
}
use solana_dashboard.Common.Int.{ℤ}
use solana_dashboard.Result.{Result, Error, ok, err, map_err, Result-cases}
use solana_dashboard.Events.Decoder.{Codec}
use solana_dashboard.Store.{ServiceEventLogEntry}
use solana_dashboard.Store.ServiceEvents.{final_id}
use solana_dashboard.Projector.ReadModel.{Writer}
use solana_dashboard.Projector.Batch.{for_each}
use solana_dashboard.Projector.Batch.Simulation.{
  value, bind, Simulates, Simulates-ok, Simulates-then, Simulates-with, Simulation,
  project-Simulates,
}
use solana_dashboard.Projector.Runner.{replay_entry, replay_entries}

module _ {S : Type 0} (codec : Codec) (w : Writer S) where
  pub replay_entries-result :
      (entries : List ServiceEventLogEntry) (last : ℤ) (n : ℕ) (s : S)
      → (replay_entries codec w entries last n s).result ≡ for_each (replay_entry codec w) entries s
  unfolding replay_entries
  replay_entries-result [] last n s = refl
  replay_entries-result (entry ∷ entries) last n s =
      elim (Result-cases (replay_entry codec w entry s)) [
        | inl (s', e) ↦
            rw (e, replay_entries) (replay_entries-result entries entry.log_id (n + 1) s')
        | inr (e', e) ↦ rw (e, replay_entries)
      ]

  pub replay_entries-progress :
      (entries : List ServiceEventLogEntry) (last : ℤ) (n : ℕ) (s : S) {s' : S}
      → for_each (replay_entry codec w) entries s ≡ ok s'
      → ((replay_entries codec w entries last n s).last_log_id ≡ final_id last entries)
        × ((replay_entries codec w entries last n s).processed ≡ n + length entries)
  unfolding replay_entries
  replay_entries-progress [] last n s h = (refl, omega arith)
  replay_entries-progress (entry ∷ entries) last n s h =
      elim (Result-cases (replay_entry codec w entry s)) [
        | inl (s', e) ↦
            let rest = replay_entries-progress entries entry.log_id (n + 1) s' (rw e at h) in
            rw (e, replay_entries) (rest.0, omega (arith, rest.1))
        | inr (e', e) ↦ absurd (ground arith)
      ]

value-map_err {ℓ} : {A : Type ℓ} (g : Error → Error) (r : Result A) → value (map_err g r) ≡ value r
value-map_err g (ok a) = refl
value-map_err g (err e) = refl

module _ {X Y : Type 0} {stands : X → Option Y} {v : Writer X} {w : Writer Y}
    (sim : Simulation stands v w) (codec : Codec) where
  map_err-Simulates :
      (g : Error → Error) {f : X → Result X} {f' : Y → Result Y}
      → Simulates stands f f'
      → Simulates stands (λ x. map_err g (f x)) (λ y. map_err g (f' y))
  map_err-Simulates g {f} {f'} h = record {
    at = λ x. left (stands x) ∙ h.at x ∙ sym (ap (λ o. bind o stands) (value-map_err g (f x)));
  }
    where
      left : (o : Option Y) → bind o (λ y. value (map_err g (f' y))) ≡ bind o (λ y. value (f' y))
      left none = refl
      left (some y) = value-map_err g (f' y)

  replay_entry-Simulates :
      (entry : ServiceEventLogEntry)
      → Simulates stands (replay_entry codec v entry) (replay_entry codec w entry)
  unfolding replay_entry
  replay_entry-Simulates entry =
      Simulates-with stands _
        (λ payload. map_err-Simulates _ (project-Simulates sim codec entry.event payload))

  pub entries-Simulates :
      (entries : List ServiceEventLogEntry)
      → Simulates stands
          (for_each (replay_entry codec v) entries)
          (for_each (replay_entry codec w) entries)
  entries-Simulates [] = Simulates-ok stands
  entries-Simulates (entry ∷ entries) =
      Simulates-then stands (replay_entry-Simulates entry) (entries-Simulates entries)
