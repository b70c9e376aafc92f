-- ===== src/Wrapped/Drawing.antt =====
-- term/iface.c: whatever the window, a text is drawn into it without an access out of bounds.
use vjft.Prelude.{ℕ, zero, suc, ◌+◌, ◌≡◌, refl, Bool, true, false, ◌==◌}
use vjft.Prelude.{if◌then◌else◌, pos, ◌+ℤ◌, leb_ℤ, Run, ok, ◌>>=◌, arith}
use vjft.Screen.{ScreenBuffer, default_fg_color, default_bg_color}
use vjft.Screen.Sizes.{IsDrawn, buffered_putchar-IsDrawn, IsDrawn-trans}
use vjft.Wrapped.{
  filler, TextWindow, Pen, is_not_skipped_row, put_sym, put_colored, fill, cols_left, fullfiller,
}
use vjft.Wrapped.{inc_rel_row, is_on_screen, colors_at, put_visible, Turn, stays, moves, breaks}
use vjft.Wrapped.{wrap_sym, wrap_char}

-- The run returns, and its result has the property.
unfoldable pub Returns : {A : Type 0} → (A → Type 0) → Run A → Type 0
Returns {A = A} P run = (a : A) × (run ≡ ok a) × P a

pub bind-Returns :
    {A B : Type 0} (P : A → Type 0) (Q : B → Type 0) (run : Run A) (next : A → Run B)
    → Returns P run
    → ((a : A) → P a → Returns Q (next a))
    → Returns Q (run >>= next)
unfolding Returns
bind-Returns P Q run next (a, returns, h) goes_on =
    let (b, returns', k) = goes_on a h in (b, rw (returns, ◌>>=◌) returns', k)

pub if-Returns :
    {A : Type 0} (P : A → Type 0) (b : Bool) (x y : Run A)
    → (b ≡ true → Returns P x)
    → (b ≡ false → Returns P y)
    → Returns P (if b then x else y)
if-Returns P true x y h k = h refl
if-Returns P false x y h k = k refl

-- The pen has drawn on this buffer.
abbrev pub HasDrawn : ScreenBuffer → Pen → Type 0
HasDrawn buffer pen = IsDrawn buffer pen.back_buffer

put_sym-HasDrawn :
    (buffer : ScreenBuffer) (s fg bg : ℕ) (pen : Pen)
    → HasDrawn buffer pen
    → Returns (HasDrawn buffer) (put_sym s fg bg pen)
unfolding put_sym Returns
put_sym-HasDrawn buffer s fg bg pen h =
    let (drawn, puts, k) =
      buffered_putchar-IsDrawn pen.back_buffer pen.scr_row pen.scr_col s fg bg h.screen in
    (
      record pen { back_buffer = drawn },
      rw (put_sym, puts, ◌>>=◌) refl,
      IsDrawn-trans buffer pen.back_buffer drawn h k,
    )

fill-HasDrawn :
    (cols : ℕ) (buffer : ScreenBuffer) (pen : Pen)
    → HasDrawn buffer pen
    → Returns (HasDrawn buffer) (fill cols pen)
unfolding fill Returns
fill-HasDrawn zero buffer pen h = (pen, refl, h)
fill-HasDrawn (suc cols) buffer pen h =
    bind-Returns (HasDrawn buffer) (HasDrawn buffer) _ _
      (put_sym-HasDrawn buffer filler default_fg_color default_bg_color pen h)
      (λ pen' h'. fill-HasDrawn cols buffer (record pen' { rel_col = pen'.rel_col + 1 }) h')

pub fullfiller-HasDrawn :
    (window : TextWindow) (buffer : ScreenBuffer) (pen : Pen)
    → HasDrawn buffer pen
    → Returns (HasDrawn buffer) (fullfiller window pen)
unfolding fullfiller Returns
fullfiller-HasDrawn window buffer pen h =
    if-Returns (HasDrawn buffer) (is_not_skipped_row window pen) _ _
      (λ visible. fill-HasDrawn (cols_left window.rel_max_width pen.rel_col) buffer pen h)
      (λ skipped. (pen, refl, h))

inc_rel_row-back_buffer :
    (window : TextWindow) (pen : Pen) → (inc_rel_row window pen).back_buffer ≡ pen.back_buffer
unfolding inc_rel_row
inc_rel_row-back_buffer window pen = ground arith

pub inc_rel_row-HasDrawn :
    (window : TextWindow) (buffer : ScreenBuffer) (pen : Pen)
    → HasDrawn buffer pen
    → HasDrawn buffer (inc_rel_row window pen)
inc_rel_row-HasDrawn window buffer pen h = rw (inc_rel_row-back_buffer window pen) h

put_colored-HasDrawn :
    (buffer : ScreenBuffer) (s : ℕ) (colors : ℕ × ℕ) (pen : Pen)
    → HasDrawn buffer pen
    → Returns (HasDrawn buffer) (put_colored s colors pen)
unfolding put_colored
put_colored-HasDrawn buffer s (fg, bg) pen h = put_sym-HasDrawn buffer s fg bg pen h

put_visible-HasDrawn :
    (window : TextWindow) (buffer : ScreenBuffer) (cur_pos s : ℕ) (pen : Pen)
    → HasDrawn buffer pen
    → Returns (HasDrawn buffer) (put_visible window cur_pos s pen)
unfolding put_visible Returns
put_visible-HasDrawn window buffer cur_pos s pen h =
    if-Returns (HasDrawn buffer) (is_not_skipped_row window pen) _ _
      (λ visible.
        bind-Returns (HasDrawn buffer) (HasDrawn buffer) _ _
          (put_colored-HasDrawn buffer s (colors_at window cur_pos) pen h)
          (λ pen' h'. (record pen' { scr_col = pen'.scr_col +ℤ pos 1 }, refl, h')))
      (λ skipped. (pen, refl, h))

-- The pointer moves only over a character that is not the end.
abbrev pub MovesOver : ℕ → Turn → Type 0
MovesOver codepoint breaks = Unit
MovesOver codepoint stays = Unit
MovesOver codepoint moves = (codepoint == 0) ≡ false

abbrev pub HasTurned : ScreenBuffer → ℕ → Pen × Turn → Type 0
HasTurned buffer codepoint (pen, turn) = HasDrawn buffer pen × MovesOver codepoint turn

wrap_sym-HasTurned :
    (window : TextWindow) (buffer : ScreenBuffer) (cur_pos codepoint : ℕ) (pen : Pen)
    → HasDrawn buffer pen
    → Returns (HasTurned buffer codepoint) (wrap_sym window cur_pos codepoint pen)
unfolding wrap_sym Returns
wrap_sym-HasTurned window buffer cur_pos codepoint pen h =
    let Turned = HasTurned buffer codepoint in
    if-Returns Turned _ _ _ (λ below. ((pen, breaks), refl, (h, tt)))
      λ above.
        if-Returns Turned (codepoint == 0x0A) _ _
          (λ newline.
            bind-Returns (HasDrawn buffer) Turned _ _ (fullfiller-HasDrawn window buffer pen h)
              (λ pen' h'. (
                (inc_rel_row window pen', moves),
                refl,
                (inc_rel_row-HasDrawn window buffer pen' h', ground arith),
              )))
          λ other.
            if-Returns Turned (codepoint == 0) _ _
              (λ end.
                bind-Returns (HasDrawn buffer) Turned _ _
                  (put_visible-HasDrawn window buffer cur_pos 0x237F pen h)
                  (λ pen' h'. ((pen', breaks), refl, (h', tt))))
              (λ more.
                bind-Returns (HasDrawn buffer) Turned _ _
                  (put_visible-HasDrawn window buffer cur_pos codepoint pen h)
                  (λ pen' h'.
                    ((record pen' { rel_col = pen'.rel_col + 1 }, moves), refl, (h', more))))

pub wrap_char-HasTurned :
    (window : TextWindow) (buffer : ScreenBuffer) (cur_pos codepoint : ℕ) (pen : Pen)
    → HasDrawn buffer pen
    → Returns (HasTurned buffer codepoint) (wrap_char window cur_pos codepoint pen)
unfolding wrap_char Returns
wrap_char-HasTurned window buffer cur_pos codepoint pen h =
    if-Returns (HasTurned buffer codepoint) (is_on_screen pen) _ _
      (λ inside.
        wrap_sym-HasTurned window buffer cur_pos codepoint _
          (wrapped (leb_ℤ window.rel_max_width (pos pen.rel_col))))
      (λ outside. ((pen, stays), refl, (h, tt)))
  where
    wrapped : (b : Bool) → HasDrawn buffer (if b then inc_rel_row window pen else pen)
    wrapped true = inc_rel_row-HasDrawn window buffer pen h
    wrapped false = h
