-- ===== src/Certificate/Store/Contract.antt =====
-- What a caller may rely on of a store of certificates, and that the memory store has it.
use go_oauth_client_credenti.Common.{
  ◌≡◌, refl, ap, String, some, arith, eq_refl, Option-cases, inl, inr,
}
use go_oauth_client_credenti.Common.Dict.{lookup, insert, erase, lookup-insert, lookup-erase}
use go_oauth_client_credenti.Certificate.Model.{
  Certificate, Http01Challenge, challenge_not_found, Outcome, done, failed,
}
use go_oauth_client_credenti.Certificate.Store.{
  Store, MemoryStore, memory_certificates, get_challenge, save_challenge, delete_challenge,
  save_certificate,
}

-- A challenge that was saved is found; one that was deleted is not, and one that is not found is
-- not deleted; saving a certificate leaves the challenges.
pub record IsLawful (S : Store) : Type 0 where
  pub save_challenge :
      (ch : Http01Challenge) (s t : S.State)
      → S.save_challenge (some ch) s ≡ (done tt, t)
      → S.get_challenge ch.token t ≡ done ch
  pub delete_challenge :
      (token : String) (s t : S.State)
      → S.delete_challenge token s ≡ (done tt, t)
      → S.get_challenge token t ≡ failed challenge_not_found
  pub delete_missing :
      (token : String) (s : S.State)
      → S.get_challenge token s ≡ failed challenge_not_found
      → S.delete_challenge token s ≡ (failed challenge_not_found, s)
  pub save_certificate :
      (cert : Certificate) (token : String) (s : S.State)
      → S.get_challenge token (S.save_certificate (some cert) s).1 ≡ S.get_challenge token s

memory_challenge-deleted :
    (token : String) (s t : MemoryStore)
    → delete_challenge token s ≡ (done tt, t)
    → get_challenge token t ≡ failed challenge_not_found
unfolding get_challenge delete_challenge
memory_challenge-deleted token s t e = elim (Option-cases (lookup token s.challenges)) [
  | inl absent ↦ absurd (ground (arith, e, absent))
  | inr (ch, found) ↦
      let state : t.challenges ≡ erase token s.challenges = ground (arith, e, found) in
      rw (get_challenge, state, lookup-erase) (rw eq_refl refl)
]

memory_challenge-missing :
    (token : String) (s : MemoryStore)
    → get_challenge token s ≡ failed challenge_not_found
    → delete_challenge token s ≡ (failed challenge_not_found, s)
unfolding get_challenge delete_challenge
memory_challenge-missing token s e = elim (Option-cases (lookup token s.challenges)) [
  | inl absent ↦ rw (delete_challenge, absent) refl
  | inr (ch, found) ↦ absurd (ground (arith, e, found))
]

-- The memory store is lawful.
pub memory_certificates-IsLawful : IsLawful memory_certificates
unfolding get_challenge save_challenge delete_challenge save_certificate
memory_certificates-IsLawful = record {
  save_challenge = λ ch s t e.
      let state : record s { challenges = insert ch.token ch s.challenges } ≡ t =
        ap (λ (x : Outcome (Unit {0}) × MemoryStore). x.1) e in
      rw (← state, get_challenge, lookup-insert) (rw eq_refl refl);
  delete_challenge = memory_challenge-deleted;
  delete_missing = memory_challenge-missing;
  save_certificate = λ cert token s. refl;
}
