-- ===== src/Token/Acceptance.antt =====
-- Which presented tokens are accepted (`AttachVerifier::verify` of runtime/src/token.rs).
use openab_pty.Base.{
  ℕ, ◌≡◌, ◌∙◌, sym, ap, ◌⊎◌, inl, inr, ◌↔◌, true, false, Option, none, some, List, Option-cases,
  Bool-cases, lookup,
}
use openab_pty.Crate.{SessionName, Generation, unauthorized, Result, ok, err}
use openab_pty.Audit.{AuditEvent}
use openab_pty.Token.{AttachGrant, StoredAttachToken, TokenStore, attach_only, admits, verify}
use openab_pty.Token.Laws.{Opens, admits_iff, verify_accepts, verify_refuses}

-- What an entry grants.
abbrev pub grant_of : SessionName → Generation → StoredAttachToken → AttachGrant
grant_of session generation stored = record {
  session = session;
  generation = generation;
  scope = attach_only;
  expires_at = stored.expires_at;
}

refused : {grant : AttachGrant} → err unauthorized ≡ ok grant → ⊥
refused e = cc

grant_inj : {a b : AttachGrant} → ok a ≡ ok b → a ≡ b
grant_inj e = cc

no_entry : {stored : StoredAttachToken} → none ≡ some stored → ⊥
no_entry e = cc

entry_inj : {a b : StoredAttachToken} → some a ≡ some b → a ≡ b
entry_inj e = cc

contrary : false ≡ true → ⊥
contrary e = cc

module _ (sha256 : List ℕ → List ℕ) (store : TokenStore) (session : SessionName) (g : Generation)
    (presented : List ℕ) (source : Option (List ℕ)) (now : ℕ) where
  abbrev verdict : Result AttachGrant
  verdict = (verify sha256 store session g presented source now).0

  -- The session has an entry that opens, and the grant is its own.
  abbrev pub Granted : AttachGrant → Type 0
  Granted grant =
      (stored : StoredAttachToken) × (lookup session store.entries ≡ some stored)
      × Opens sha256 stored g presented now
      × (grant_of session g stored ≡ grant)

  accepted :
      (stored : StoredAttachToken)
      → lookup session store.entries ≡ some stored
      → Opens sha256 stored g presented now
      → verdict ≡ ok (grant_of session g stored)
  accepted stored e o =
      ap (λ (r : Result AttachGrant × List ℕ × TokenStore × List AuditEvent). r.0)
        (verify_accepts sha256 store session g presented source now stored e o)

  shut_out :
      (grant : AttachGrant)
      → ((stored : StoredAttachToken)
          → lookup session store.entries ≡ some stored
          → ¬ Opens sha256 stored g presented now)
      → verdict ≡ ok grant
      → Granted grant
  shut_out grant shut h =
      absurd (refused (sym (verify_refuses sha256 store session g presented source now shut).0 ∙ h))

  not_admitted :
      (grant : AttachGrant) (stored : StoredAttachToken)
      → lookup session store.entries ≡ some stored
      → admits sha256 stored g (sha256 presented) now ≡ false
      → verdict ≡ ok grant
      → Granted grant
  not_admitted grant stored e a h =
      shut_out grant
        (λ other f o. contrary (
          sym a
          ∙ ap (λ t. admits sha256 t g (sha256 presented) now) (entry_inj (sym e ∙ f))
          ∙ (admits_iff sha256 other g presented now).1 o))
        h

  entry_opens :
      (grant : AttachGrant)
      → (lookup session store.entries ≡ none)
        ⊎ ((stored : StoredAttachToken) × (lookup session store.entries ≡ some stored))
      → verdict ≡ ok grant
      → Granted grant
  entry_opens grant (inl e) h = shut_out grant (λ stored f o. no_entry (sym e ∙ f)) h
  entry_opens grant (inr (stored, e)) h =
      elim (Bool-cases (admits sha256 stored g (sha256 presented) now)) [
        | inl a ↦
            let o = (admits_iff sha256 stored g presented now).0 a in
            (stored, e, o, grant_inj (sym (accepted stored e o) ∙ h))
        | inr a ↦ not_admitted grant stored e a h
      ]

-- A presented token is accepted exactly if its session has an entry which it opens: of the right
-- generation, not expired, with the hash of what was presented; and the grant is then that of the
-- entry.
pub verify_iff :
    (sha256 : List ℕ → List ℕ) (store : TokenStore) (session : SessionName) (g : Generation)
    (presented : List ℕ) (source : Option (List ℕ)) (now : ℕ) (grant : AttachGrant)
    → ((verify sha256 store session g presented source now).0 ≡ ok grant) ↔ (
        (stored : StoredAttachToken) × (lookup session store.entries ≡ some stored)
        × Opens sha256 stored g presented now
        × (grant_of session g stored ≡ grant))
verify_iff sha256 store session g presented source now grant = (
  entry_opens sha256 store session g presented source now grant
      (Option-cases (lookup session store.entries)),
  λ (stored, e, o, same).
      accepted sha256 store session g presented source now stored e o ∙ ap ok same,
)
