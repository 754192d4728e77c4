-- ===== src/Chat/Pages.antt =====
-- internal/chat/service.go: a client that follows the cursors of `Messages` from page to page.
use dating_app_backend.Prelude.{
  ℕ, zero, suc, ◌+◌, ◌<◌, ◌≡◌, refl, sym, ap, ◌∙◌, subst, inl, inr, Bool, false, Option, none, some,
  List, [], ◌∷◌, ◌++◌, map, Text, is_empty, trim_space, ◌==◌, length, take, select, All, UniqueKeys,
  done, failed, ok, ◌>>=◌, arith, newest_first, IsNewestFirst, newest_first-IsNewestFirst,
  All-newest_first, All-select, count-newest_first, select_beyond, page_cases,
}
use dating_app_backend.Store.{Message, Db}
use dating_app_backend.Chat.Model.{
  ConversationAccess, MessageRow, MessageResponse, to_response, active_conversation,
}
use dating_app_backend.Chat.Messages.{
  normalize_limit, MessageCursor, CursorCodec, decode_message_cursor, join_messages, row_time,
  row_id, sorted_messages, behind, message_rows, message_page, ListSite, read_access, read_rows,
  messages,
}
use dating_app_backend.Chat.Rows.{
  IsPositive, MessageIsDated, RowIsDated, message_id, join-IsDated, join-UniqueKeys,
  select-UniqueKeys, All-last, append_assoc, append_last, map-append, normalize_limit-IsPositive,
}

-- The messages of all pages from a cursor on; `none` when a call fails or the fuel is used up.
unfoldable pub follow_pages :
    (Text → Option ℕ)
    → CursorCodec
    → (ListSite → Bool)
    → ℕ
    → Text
    → Text
    → Db
    → ℕ
    → Text
    → Option (List MessageResponse)
follow_pages parse_uuid codec faults user raw_conversation raw_limit db zero cursor = none
follow_pages parse_uuid codec faults user raw_conversation raw_limit db (suc fuel) cursor =
    elim (messages parse_uuid codec faults user raw_conversation raw_limit cursor db) [
      | failed e _ ↦ none
      | done r _ ↦ elim r.next_cursor [
        | none ↦ some r.items
        | some next ↦
            elim (follow_pages parse_uuid codec faults user raw_conversation raw_limit db fuel
              next) [ none ↦ none | some items ↦ some (r.items ++ items) ]
      ]
    ]

-- What the codec does with a cursor that it has written.
pub record CodecLaws (codec : CursorCodec) : Type 0 where
  pub reads_back : (c : MessageCursor) → codec.decode (codec.encode c) ≡ some c
  pub not_blank : (c : MessageCursor) → is_empty (trim_space (codec.encode c)) ≡ false

module _ (parse_uuid : Text → Option ℕ) (codec : CursorCodec) (laws : CodecLaws codec)
    (faults : ListSite → Bool) (user : ℕ) (raw_conversation raw_limit : Text) (db : Db)
    (conversation : ℕ) (access : ConversationAccess) (n : ℕ)
    (parsed : parse_uuid (trim_space raw_conversation) ≡ some conversation)
    (has_access : active_conversation user conversation db ≡ some access)
    (limited : normalize_limit raw_limit 30 100 ≡ ok (suc n)) (up : faults read_access ≡ false)
    (up_too : faults read_rows ≡ false) where
  one_page :
      (text : Text) (cursor : Option MessageCursor)
      → decode_message_cursor codec text ≡ ok cursor
      → messages parse_uuid codec faults user raw_conversation raw_limit text db
        ≡ done
            (message_page codec
              (suc n)
              (take (suc (suc n)) (behind cursor (sorted_messages access.conversation_id db))))
            db
  unfolding messages message_rows
  one_page text cursor d =
      let e : suc n + 1 ≡ suc (suc n) = omega arith in
      rw (parsed, up, has_access, limited, d, up_too, messages, message_rows, ◌>>=◌, e) refl

  written_cursor :
      (r : MessageRow)
      → RowIsDated r
      → decode_message_cursor codec
          (codec.encode (record { created_at = r.created_at; message_id = r.message_id }))
        ≡ ok (some (record { created_at = r.created_at; message_id = r.message_id }))
  unfolding decode_message_cursor
  written_cursor r v =
      let c : MessageCursor = record { created_at = r.created_at; message_id = r.message_id } in
      rw (laws.not_blank c, laws.reads_back c, v.0, v.1) refl

  from_cursor :
      (fuel : ℕ) (text : Text) (cursor : Option MessageCursor) (before r : List MessageRow)
      → decode_message_cursor codec text ≡ ok cursor
      → sorted_messages access.conversation_id db ≡ before ++ r
      → behind cursor (sorted_messages access.conversation_id db) ≡ r
      → IsNewestFirst row_time row_id (before ++ r)
      → All RowIsDated r
      → length r < fuel
      → follow_pages parse_uuid codec faults user raw_conversation raw_limit db fuel text
        ≡ some (map to_response r)
  unfolding follow_pages
  from_cursor zero text cursor before r d whole rest sorted dated enough = absurd (omega arith)
  from_cursor (suc fuel) text cursor before r d whole rest sorted dated enough =
      elim (page_cases n r) [
        | inr l ↦ rw (follow_pages, one_page text cursor d, rest, l.cursor, rest, l.shown) refl
        | inl c ↦
            let here = append_assoc before c.front c.rest c.last in
            let all = All-last c.front c.last c.rest (subst (All RowIsDated) c.joined dated) in
            let known : sorted_messages access.conversation_id db
                ≡ (before ++ c.front) ++ c.last ∷ c.rest =
              whole ∙ ap (λ t. before ++ t) c.joined ∙ here in
            let in_order : IsNewestFirst row_time row_id ((before ++ c.front) ++ c.last ∷ c.rest) =
              subst (IsNewestFirst row_time row_id) (ap (λ t. before ++ t) c.joined ∙ here)
                sorted in
            let next =
              from_cursor fuel
                (codec.encode
                  (record { created_at = c.last.created_at; message_id = c.last.message_id }))
                (some (record { created_at = c.last.created_at; message_id = c.last.message_id }))
                ((before ++ c.front) ++ c.last ∷ []) c.rest (written_cursor c.last all.0)
                (known ∙ sym (append_last (before ++ c.front) c.rest c.last))
                (ap
                    (λ t.
                      behind
                        (some (record {
                          created_at = c.last.created_at;
                          message_id = c.last.message_id;
                        }))
                        t)
                    known
                  ∙ select_beyond row_time row_id (before ++ c.front) c.last c.rest in_order)
                (subst (IsNewestFirst row_time row_id)
                  (sym (append_last (before ++ c.front) c.rest c.last)) in_order)
                all.1 (omega (arith, c.shorter)) in
            rw (follow_pages, one_page text cursor d, rest, c.cursor, next, rest, c.shown)
              (ap some (
                sym (map-append (c.front ++ c.last ∷ []) c.rest)
                ∙ ap (map to_response) (append_last c.front c.rest c.last ∙ sym c.joined)))
      ]

-- What the pages together hold: the rows of the conversation in one strict order, the newest first.
pub record AllRows (conversation : ℕ) (db : Db) (items : List MessageResponse) : Type 0 where
  pub rows : List MessageRow
  pub items_are : items ≡ map to_response rows
  pub in_order : IsNewestFirst row_time row_id rows
  pub every_row :
      (p : MessageRow → Bool)
      → length (select p rows)
        ≡ length (
            select p (
              join_messages db
                (select (λ (m : Message). m.conversation_id == conversation) db.messages)))

-- A client that starts with no cursor and follows the cursors of `Messages` ends after at most one
-- call more than the conversation has messages, and has then been given every message of the
-- conversation (joined with its sender) exactly once, the newest first, whatever the limit that it asks for. The conditions:
-- the conversation is open to the user, no query fails, ids are unique, times and ids are not
-- zero, and the codec reads back what it wrote.
pub follow_pages_complete :
    (parse_uuid : Text → Option ℕ) (codec : CursorCodec) (laws : CodecLaws codec)
    (faults : ListSite → Bool) (user : ℕ) (raw_conversation raw_limit : Text) (db : Db)
    (conversation : ℕ) (access : ConversationAccess) (limit : ℕ)
    → parse_uuid (trim_space raw_conversation) ≡ some conversation
    → active_conversation user conversation db ≡ some access
    → normalize_limit raw_limit 30 100 ≡ ok limit
    → faults read_access ≡ false
    → faults read_rows ≡ false
    → UniqueKeys message_id db.messages
    → All MessageIsDated db.messages
    → (items : List MessageResponse) × (follow_pages parse_uuid codec faults user raw_conversation
          raw_limit db
          (length (sorted_messages access.conversation_id db) + 1)
          []
        ≡ some items)
      × AllRows access.conversation_id db items
unfolding decode_message_cursor trim_space
follow_pages_complete parse_uuid codec laws faults user raw_conversation raw_limit db conversation
      access zero parsed has_access limited up up_too unique dated =
    absurd
      (let p = subst IsPositive limited (normalize_limit-IsPositive raw_limit) in omega (arith, p))
follow_pages_complete parse_uuid codec laws faults user raw_conversation raw_limit db conversation
      access (suc n) parsed has_access limited up up_too unique dated =
    let in_it = (λ (m : Message). m.conversation_id == access.conversation_id) in
    let joined = join_messages db (select in_it db.messages) in
    let rows = newest_first row_time row_id joined in
    let sorted = newest_first-IsNewestFirst row_time row_id joined (
      join-UniqueKeys db (select in_it db.messages) (select-UniqueKeys in_it db.messages unique)) in
    (
      map to_response rows,
      from_cursor parse_uuid codec laws faults user raw_conversation raw_limit db conversation
          access n parsed has_access limited up up_too (length rows + 1) [] none [] rows refl refl
          refl sorted
          (All-newest_first row_time row_id RowIsDated joined (
            join-IsDated db (select in_it db.messages)
              (All-select MessageIsDated in_it db.messages dated)))
          (omega arith),
      record {
        rows = rows;
        items_are = refl;
        in_order = sorted;
        every_row = λ p. count-newest_first row_time row_id p joined;
      },
    )
