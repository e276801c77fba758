-- ===== src/Tui/Theme.antt =====
-- ferro-wg-tui-core/src/theme.rs: the two palettes. The styles built from them are ratatui's.
use ferro_wg.Prelude.{ℕ}

pub data ThemeKind : Type 0 where
  mocha latte : ThemeKind

pub record Color : Type 0 where
  pub r : ℕ
  pub g : ℕ
  pub b : ℕ

abbrev rgb : ℕ → ℕ → ℕ → Color
rgb r g b = record { r = r; g = g; b = b }

pub record Theme : Type 0 where
  pub base : Color
  pub surface : Color
  pub text : Color
  pub subtext : Color
  pub accent : Color
  pub success : Color
  pub error : Color
  pub warning : Color
  pub muted : Color
  pub highlight_bg : Color

mocha_theme : Theme
mocha_theme = record {
  base = rgb 30 30 46;
  surface = rgb 49 50 68;
  text = rgb 205 214 244;
  subtext = rgb 186 194 222;
  accent = rgb 180 190 254;
  success = rgb 166 227 161;
  error = rgb 243 139 168;
  warning = rgb 249 226 175;
  muted = rgb 108 112 134;
  highlight_bg = rgb 69 71 90;
}

latte_theme : Theme
latte_theme = record {
  base = rgb 239 241 245;
  surface = rgb 204 208 218;
  text = rgb 76 79 105;
  subtext = rgb 92 95 119;
  accent = rgb 114 135 253;
  success = rgb 64 160 43;
  error = rgb 210 15 57;
  warning = rgb 223 142 29;
  muted = rgb 156 160 176;
  highlight_bg = rgb 220 224 232;
}

unfoldable pub into_theme : ThemeKind → Theme
unfolding mocha_theme latte_theme
into_theme mocha = mocha_theme
into_theme latte = latte_theme

unfoldable pub toggle : ThemeKind → ThemeKind
toggle mocha = latte
toggle latte = mocha
