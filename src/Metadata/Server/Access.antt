-- ===== src/Metadata/Server/Access.antt =====
-- Who can change a row through the service's routes.
use mathlib.Core.List.{Memᴰ}
use mathlib.Core.List.Memᴰ
use mathlib.Core.Path.{subst}
use flowix.Common.{◌≡◌, ◌≢◌, ◌⊎◌, inl, inr, refl, sym, ap, ◌∙◌, String, some, List, [], ◌∷◌}
use flowix.Common.{All}
use flowix.Http.{Request, Headers, Step, reply, next, header}
use flowix.Auth.{auth_middleware, internal_auth}
use flowix.Auth.Identity.{HasAccessToken, auth_middleware_sound, internal_auth_iff}
use flowix.Metadata.Database.{VideoRow, Database, row_of}
use flowix.Metadata.Handler.{Reply}
use flowix.Metadata.Handler.Delete
use flowix.Metadata.Server.{
  Setup, Bodies, Route, routes, Guard, auth, optional, internal, Operation, create, update, delete,
  list, get, update_status, serve, check, handle, handle_next, first_two, replying,
}
use flowix.Metadata.Server.Rows.{
  Spared, create_handler-Spared, update_handler-Spared, delete_handler-Spared,
}

-- The middleware in front of each operation's route.
abbrev guard_of : Operation → Guard
guard_of create = auth
guard_of update = auth
guard_of delete = auth
guard_of list = optional
guard_of get = optional
guard_of o = internal

abbrev Matches : Route → Type 0
Matches rt = rt.guard ≡ guard_of rt.operation

routes-Matches : All Matches routes
routes-Matches = (refl, (refl, (refl, (refl, (refl, (refl, (refl, (refl, (refl, tt)))))))))

member : (P : Route → Type 0) {x : Route} (xs : List Route) → All P xs → Memᴰ x xs → P x
member P (y ∷ ys) (p, ps) (Memᴰ.head e) = subst P (sym e) p
member P (y ∷ ys) (p, ps) (Memᴰ.tail m) = member P ys ps m
member P [] p m = absurd (Memᴰ.not-nil m)

replying-db : (p : Reply × Database) → (replying p).1 ≡ p.1
replying-db (r, db) = refl

module _ (st : Setup) (b : Bodies) (db : Database) (j : String) (r : VideoRow)
    (here : row_of j db.videos ≡ some r) (w : Headers) (req : Request) where
  -- The row stays, or the request may change it.
  abbrev Safe : Operation → Database → Type 0
  Safe o d =
      (row_of j d.videos ≡ some r)
      ⊎ (HasAccessToken st.jwt st.now st.jwt_secret req r.owner_id
          ⊎ ((o ≡ update_status) × (header req "X-Internal-Token" ≡ st.internal_token)))

  authorised-Safe :
      (o : Operation)
      → ((q : Request) → Spared j r q.user (handle st o b q db).1)
      → (p : Step) → auth_middleware st.jwt st.now st.jwt_secret w req ≡ p
      → Safe o (handle_next st o b p db).1
  unfolding handle_next
  authorised-Safe o spared (reply code v body) e = inl here
  authorised-Safe o spared (next v q) e =
      let (sub, token, same) = auth_middleware_sound st.jwt st.now st.jwt_secret w v req q e in
      elim (spared q) [
        | inl stays ↦ inl stays
        | inr mine ↦ inr (
            inl (
              subst (HasAccessToken st.jwt st.now st.jwt_secret req)
                (sym (mine ∙ ap (λ q. q.user) same)) token))
      ]

  trusted-Safe :
      st.internal_token ≢ ""
      → (p : Step) → internal_auth st.internal_token w req ≡ p
      → Safe update_status (handle_next st update_status b p db).1
  unfolding handle_next
  trusted-Safe n (reply code v body) e = inl here
  trusted-Safe n (next v q) e =
      inr (inr (refl, ((internal_auth_iff st.internal_token w v req q n).0 e).0))

  reads-Safe :
      (o : Operation)
      → ((q : Request) → (handle st o b q db).1 ≡ db)
      → (p : Step) → Safe o (handle_next st o b p db).1
  unfolding handle_next
  reads-Safe o same (reply code v body) = inl here
  reads-Safe o same (next v q) = inl (rw (same q) here)

  operation-Safe :
      (o : Operation)
      → st.internal_token ≢ ""
      → Safe o (handle_next st o b (check st (guard_of o) w req) db).1
  unfolding handle check auth_middleware internal_auth
  operation-Safe create n =
      authorised-Safe create
        (λ q. rw replying-db (create_handler-Spared st j r db here q b.creation))
        (check st auth w req) refl
  operation-Safe update n =
      authorised-Safe update (λ q. rw replying-db (update_handler-Spared st j r db here q b.change))
        (check st auth w req) refl
  operation-Safe delete n =
      authorised-Safe delete
        (λ q.
          rw
            (replying-db
              (first_two (Delete.delete st.uuid st.storage st.faults st.more_faults q db)))
            (delete_handler-Spared st j r db here q))
        (check st auth w req) refl
  operation-Safe update_status n = trusted-Safe n (check st internal w req) refl
  operation-Safe o n = reads-Safe o (λ q. refl) (check st (guard_of o) w req)

-- A request on a route of the service leaves a row as it is, unless it has an access token of the
-- row's owner, or it is a status update with the internal token, which must not be empty.
pub serve-Safe :
    (st : Setup) (rt : Route) (b : Bodies) (w : Headers) (req : Request) (db : Database)
    (j : String) (r : VideoRow)
    → Memᴰ rt routes
    → st.internal_token ≢ ""
    → row_of j db.videos ≡ some r
    → (row_of j (serve st rt b w req db).1.videos ≡ some r)
      ⊎ (HasAccessToken st.jwt st.now st.jwt_secret req r.owner_id
          ⊎ ((rt.operation ≡ update_status) × (header req "X-Internal-Token" ≡ st.internal_token)))
unfolding serve
serve-Safe st rt b w req db j r m n here =
    rw (member Matches routes routes-Matches m)
      (operation-Safe st b db j r here w req rt.operation n)
