-- ===== src/Plugins/S3/Objects.antt =====
-- What `WriteBatch` of pkg/storage/plugins/s3 leaves in the bucket.
use extend_game_telemetry_co.Prelude.{
  ◌≡◌, ◌∙◌, refl, sym, ap, false, Option, none, some, List, [], Text, is_empty, length, length-map,
  map,
}
use extend_game_telemetry_co.Prelude.Int.{pos}
use extend_game_telemetry_co.Prelude.Result.{ok}
use extend_game_telemetry_co.Runtime.{Context}
use extend_game_telemetry_co.Plugins.{EventKind}
use extend_game_telemetry_co.Plugins.S3.{
  S3Client, S3Plugin, ObjectKey, PutObjectInput, first_namespace, object_of, upload, write_batch,
}

module _ {W E P : Type 0} (client : S3Client W P) (kind : EventKind E P) where
  -- `body_at` reads the remote store: an accepted object is read back under its key.
  abbrev pub IsBucket : (Text → ObjectKey → W → Option Text) → Type 0
  IsBucket body_at =
      (ctx : Context) (input : PutObjectInput) (w : W)
      → (client.put_object ctx input w).0 ≡ none
      → body_at input.bucket input.key (client.put_object ctx input w).1 ≡ some input.body

  -- The key that a batch is stored under.
  abbrev pub key_of : List E → S3Plugin W → ObjectKey
  key_of evts p = (object_of client kind evts [] p).key

  write_batch_uploads :
      (ctx : Context) (evts : List E) {body : Text} (p : S3Plugin W)
      → is_empty evts ≡ false
      → client.marshal_indent (map kind.to_document evts) ≡ ok body
      → (client.put_object ctx (object_of client kind evts body p) p.remote).0 ≡ none
      → write_batch client kind ctx evts p ≡ (
        (pos (length evts), none),
        record p {
          remote = (client.put_object ctx (object_of client kind evts body p) p.remote).1;
        },
      )
  unfolding write_batch
  write_batch_uploads ctx evts p h m a = rw (h, m, upload, a, length-map evts kind.to_document) refl

  module _ (body_at : Text → ObjectKey → W → Option Text) where
    -- A batch that is not empty, that can be marshalled and that the bucket accepts, is reported
    -- with its length and no error, and the JSON of all its documents is the object under its key.
    pub write_batch_stores :
        (ctx : Context) (evts : List E) {body : Text} (p : S3Plugin W)
        → IsBucket body_at
        → is_empty evts ≡ false
        → client.marshal_indent (map kind.to_document evts) ≡ ok body
        → (client.put_object ctx (object_of client kind evts body p) p.remote).0 ≡ none
        → ((write_batch client kind ctx evts p).0 ≡ (pos (length evts), none))
          × (body_at p.cfg.bucket (key_of evts p) (write_batch client kind ctx evts p).1.remote
              ≡ some body)
    unfolding object_of
    write_batch_stores ctx evts {body} p bucket h m a =
        let e = write_batch_uploads ctx evts p h m a in
        (
          ap (λ r. r.0) e,
          ap (λ r. body_at p.cfg.bucket (key_of evts p) r.1.remote) e
              ∙ bucket ctx (object_of client kind evts body p) p.remote a,
        )

    -- Two batches of one plugin whose first events have the same namespace, written in the same
    -- millisecond of one day, share their key: after both are reported as stored, the key
    -- holds the second, and the first is lost.
    pub same_millisecond_overwrites :
        (ctx : Context) (first second : List E) {body body' : Text} (p p' : S3Plugin W)
        → IsBucket body_at
        → is_empty first ≡ false
        → is_empty second ≡ false
        → first_namespace kind.namespace first ≡ first_namespace kind.namespace second
        → client.marshal_indent (map kind.to_document first) ≡ ok body
        → client.marshal_indent (map kind.to_document second) ≡ ok body'
        → (client.put_object ctx (object_of client kind first body p) p.remote).0 ≡ none
        → p' ≡ (write_batch client kind ctx first p).1
        → client.now p.remote ≡ client.now p'.remote
        → (client.put_object ctx (object_of client kind second body' p') p'.remote).0 ≡ none
        → (body_at p.cfg.bucket (key_of first p) p'.remote ≡ some body)
          × ((write_batch client kind ctx second p').0 ≡ (pos (length second), none))
          × (body_at p.cfg.bucket (key_of first p) (write_batch client kind ctx second p').1.remote
              ≡ some body')
    unfolding object_of
    same_millisecond_overwrites ctx first second p p' bucket hf hs same mf ms af there clock taken =
        let e = write_batch_uploads ctx first p hf mf af in
        let same_cfg : p'.cfg ≡ p.cfg = ap (λ q. q.cfg) (there ∙ ap (λ r. r.1) e) in
        let same_key : key_of second p' ≡ key_of first p = rw (same_cfg, same, clock) refl in
        let later = write_batch_stores ctx second p' bucket hs ms taken in
        let left = (write_batch client kind ctx second p').1.remote in
        (
          ap (λ q. body_at p.cfg.bucket (key_of first p) q.remote) there
              ∙ (write_batch_stores ctx first p bucket hf mf af).1,
          later.0,
          ap (λ c. body_at c.bucket (key_of first p) left) (sym same_cfg)
              ∙ ap (λ k. body_at p'.cfg.bucket k left) (sym same_key)
              ∙ later.1,
        )
