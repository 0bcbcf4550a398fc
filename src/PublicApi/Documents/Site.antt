-- ===== src/PublicApi/Documents/Site.antt =====
-- What an upload and a deletion act on, their calls with fates, and the retry loop of
-- src/services/compensation.py that marks a document failed.
use inherent.Prelude.{
  ℕ, zero, suc, ◌+◌, ◌-◌, ◌*◌, ◌^◌, String, Bool, true, false, List, ◌∷◌, ◌⊎◌, inl, inr,
}
use inherent.Contracts.Checks.{ContentMismatch}
use inherent.PublicApi.Chunks.Stores.{Failure}
use inherent.PublicApi.Chunks.Compensation.{
  Fate, done, refused, unknown, mark_failed_attempts, mark_failed_backoff,
}
use inherent.PublicApi.Documents.Rows.{Tables, mark_document_failed}

-- An object of the vector store, by its place.
pub record VectorKey : Type 0 where
  pub collection : String
  pub tenant : String
  pub document_id : String
  pub chunk_index : ℕ

-- The fields of the `document.uploaded` message that ingestion acts on.
pub record DocumentUploaded : Type 0 where
  pub document_id : String
  pub workspace_id : String
  pub user_id : String
  pub uploaded_by : String
  pub original_filename : String
  pub content_type : String
  pub size_bytes : ℕ
  pub storage_path : String
  pub storage_url : String

-- The stores and the queue, the number of calls so far, the labels of the alarms raised, and the
-- milliseconds slept. Of a stored object its key is kept: the bytes are put there once, by the upload
-- that has computed the key, and no operation here reads them.
pub record Site : Type 0 where
  pub tables : Tables
  pub vectors : List VectorKey
  pub objects : List String
  pub published : List DocumentUploaded
  pub calls : ℕ
  pub exhausted : List String
  pub slept : ℕ

-- Why an upload is a bad request; of the messages only those of the explicitly unsupported formats
-- are kept, and the keys that the others name.
pub data Rejection : Type 0 where
  explicitly_unsupported : String → Rejection
  unsupported : Rejection
  extension_mismatch : String → Rejection
  empty : Rejection
  too_large : (size max : ℕ) → Rejection
  content_mismatch : ContentMismatch → Rejection

-- What an operation raises: `BadRequestError`, `ServiceUnavailableError` with the service's name, or
-- whatever its call raised.
pub data Raised : Type 0 where
  bad_request : Rejection → Raised
  service_unavailable : String → Raised
  raised : Failure → Raised

abbrev pub Action : Type 0 → Type 0
Action A = Site → (Raised ⊎ A) × Site

module _ {A : Type 0} where
  unfoldable pub give : A → Action A
  give a w = (inr a, w)

  unfoldable pub throw : Raised → Action A
  throw e w = (inl e, w)

  unfoldable pub fated : Fate → (Site → A × Site) → Action A
  fated done f w = (inr (f w).0, (f w).1)
  fated (refused e) f w = (inl (raised e), w)
  fated (unknown e) f w = (inl (raised e), (f w).1)

  -- A call, with its fate by the number of calls before it.
  unfoldable pub call : (ℕ → Fate) → (Site → A × Site) → Action A
  unfolding fated
  call fates f w = fated (fates w.calls) f (record w { calls = w.calls + 1 })

  -- `except Exception as exc: raise …`
  unfoldable pub recast : (Raised → Raised) → (Raised ⊎ A) × Site → (Raised ⊎ A) × Site
  recast f (inl e, w) = (inl (f e), w)
  recast f (inr a, w) = (inr a, w)

module _ {A B : Type 0} where
  -- `try`, with what follows it and what its handler does.
  unfoldable pub branch :
      (Raised → Action B) → (A → Action B) → (Raised ⊎ A) × Site → (Raised ⊎ B) × Site
  branch handler f (inl e, w) = handler e w
  branch handler f (inr a, w) = f a w

  infixl 5 ◌>>=◌
  unfoldable pub ◌>>=◌ : Action A → (A → Action B) → Action B
  unfolding branch throw
  ◌>>=◌ m f w = branch throw f (m w)

-- An effect on the tables alone, and a read of them.
abbrev pub write : (Tables → Tables) → Site → Unit {0} × Site
write f w = (tt, record w { tables = f w.tables })

abbrev pub query : {A : Type 0} → (Tables → A) → Site → A × Site
query f w = (f w.tables, w)

-- `except Exception` of an attempt: sleep and go on, or, after the last one, raise the alarm.
unfoldable pub after_mark :
    String → ℕ → ℕ → Action Bool → (Raised ⊎ Unit {0}) × Site → (Raised ⊎ Bool) × Site
after_mark operation ms left rest (inr u, w) = (inr true, w)
after_mark operation ms zero rest (inl e, w) =
    (inr false, record w { exhausted = operation ∷ w.exhausted })
after_mark operation ms (suc left) rest (inl e, w) = rest (record w { slept = w.slept + ms })

-- `for attempt in range(attempt, attempts + 1)`, with the number of attempts that are left.
unfoldable pub marks_from : String → Action (Unit {0}) → ℕ → ℕ → Action Bool
unfolding after_mark
marks_from operation mark attempt zero w = (inr false, w)
marks_from operation mark attempt (suc left) w =
    let rest = marks_from operation mark (attempt + 1) left in
    after_mark operation (mark_failed_backoff * 2 ^ (attempt - 1)) left rest (mark w)

unfoldable pub mark_document_failed_with_retry :
    (ℕ → Fate) → String → String → String → String → Action Bool
unfolding marks_from call mark_document_failed
mark_document_failed_with_retry database id workspace message operation =
    marks_from operation (call database (write (mark_document_failed id workspace message))) 1
      mark_failed_attempts
