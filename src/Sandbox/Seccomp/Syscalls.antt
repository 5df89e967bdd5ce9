-- ===== src/Sandbox/Seccomp/Syscalls.antt =====
-- The system calls that a plugin may make, by architecture.
use sentrazero.Base.{ℕ, List, [], ◌∷◌}

abbrev pub allowed_syscalls_x86_64 : List ℕ
allowed_syscalls_x86_64 =
    0 ∷ 1 ∷ 2 ∷ 3 ∷ 4 ∷ 5 ∷ 6 ∷ 8 ∷ 17 ∷ 18 ∷ 19 ∷ 20 ∷ 21 ∷ 40 ∷ 72 ∷ 73 ∷ 74 ∷ 75 ∷ 76 ∷ 77 ∷ 78
    ∷ 79 ∷ 80 ∷ 81 ∷ 82 ∷ 83 ∷ 84 ∷ 85 ∷ 86 ∷ 87 ∷ 88 ∷ 89 ∷ 90 ∷ 91 ∷ 92 ∷ 93 ∷ 94 ∷ 95 ∷ 137 ∷ 138
    ∷ 217 ∷ 221 ∷ 257 ∷ 258 ∷ 259 ∷ 260 ∷ 261 ∷ 262 ∷ 263 ∷ 264 ∷ 265 ∷ 266 ∷ 267 ∷ 268 ∷ 269 ∷ 275
    ∷ 276 ∷ 277 ∷ 278 ∷ 280 ∷ 285 ∷ 295 ∷ 296 ∷ 302 ∷ 316 ∷ 326 ∷ 327 ∷ 328 ∷ 332 ∷ 436 ∷ 437 ∷ 439
    ∷ 9 ∷ 10 ∷ 11 ∷ 12 ∷ 25 ∷ 26 ∷ 27 ∷ 28 ∷ 319 ∷ 13 ∷ 14 ∷ 15 ∷ 34 ∷ 39 ∷ 56 ∷ 57 ∷ 58 ∷ 59 ∷ 60
    ∷ 61 ∷ 62 ∷ 63 ∷ 109 ∷ 110 ∷ 111 ∷ 112 ∷ 124 ∷ 127 ∷ 128 ∷ 129 ∷ 130 ∷ 131 ∷ 186 ∷ 200 ∷ 202
    ∷ 218 ∷ 219 ∷ 231 ∷ 234 ∷ 247 ∷ 273 ∷ 274 ∷ 322 ∷ 334 ∷ 424 ∷ 434 ∷ 435 ∷ 449 ∷ 97 ∷ 98 ∷ 99
    ∷ 100 ∷ 102 ∷ 104 ∷ 107 ∷ 108 ∷ 115 ∷ 118 ∷ 120 ∷ 121 ∷ 125 ∷ 126 ∷ 140 ∷ 141 ∷ 160 ∷ 201 ∷ 35
    ∷ 36 ∷ 37 ∷ 38 ∷ 96 ∷ 222 ∷ 223 ∷ 224 ∷ 225 ∷ 226 ∷ 228 ∷ 229 ∷ 230 ∷ 24 ∷ 142 ∷ 143 ∷ 144 ∷ 145
    ∷ 146 ∷ 147 ∷ 148 ∷ 203 ∷ 204 ∷ 309 ∷ 314 ∷ 315 ∷ 41 ∷ 42 ∷ 43 ∷ 44 ∷ 45 ∷ 46 ∷ 47 ∷ 48 ∷ 49
    ∷ 50 ∷ 51 ∷ 52 ∷ 53 ∷ 54 ∷ 55 ∷ 288 ∷ 299 ∷ 307 ∷ 7 ∷ 16 ∷ 22 ∷ 23 ∷ 32 ∷ 33 ∷ 213 ∷ 232 ∷ 233
    ∷ 253 ∷ 254 ∷ 255 ∷ 270 ∷ 271 ∷ 281 ∷ 282 ∷ 283 ∷ 284 ∷ 286 ∷ 287 ∷ 289 ∷ 290 ∷ 291 ∷ 292 ∷ 293
    ∷ 294 ∷ 441 ∷ 157 ∷ 158 ∷ 162 ∷ 306 ∷ 318 ∷ 324 ∷ []

abbrev pub allowed_syscalls_arm64 : List ℕ
allowed_syscalls_arm64 =
    63 ∷ 64 ∷ 57 ∷ 62 ∷ 56 ∷ 67 ∷ 68 ∷ 65 ∷ 66 ∷ 48 ∷ 71 ∷ 25 ∷ 32 ∷ 82 ∷ 83 ∷ 45 ∷ 46 ∷ 61 ∷ 17
    ∷ 49 ∷ 50 ∷ 38 ∷ 34 ∷ 33 ∷ 55 ∷ 54 ∷ 35 ∷ 37 ∷ 36 ∷ 78 ∷ 52 ∷ 53 ∷ 166 ∷ 43 ∷ 44 ∷ 79 ∷ 80 ∷ 223
    ∷ 276 ∷ 47 ∷ 69 ∷ 70 ∷ 261 ∷ 76 ∷ 77 ∷ 84 ∷ 75 ∷ 88 ∷ 285 ∷ 286 ∷ 287 ∷ 291 ∷ 436 ∷ 437 ∷ 439
    ∷ 222 ∷ 226 ∷ 215 ∷ 214 ∷ 216 ∷ 227 ∷ 232 ∷ 233 ∷ 279 ∷ 134 ∷ 135 ∷ 139 ∷ 220 ∷ 221 ∷ 93 ∷ 94
    ∷ 260 ∷ 129 ∷ 160 ∷ 154 ∷ 156 ∷ 157 ∷ 136 ∷ 137 ∷ 138 ∷ 133 ∷ 132 ∷ 130 ∷ 98 ∷ 96 ∷ 128 ∷ 131
    ∷ 95 ∷ 99 ∷ 100 ∷ 281 ∷ 293 ∷ 424 ∷ 434 ∷ 435 ∷ 449 ∷ 163 ∷ 165 ∷ 179 ∷ 153 ∷ 172 ∷ 173 ∷ 174
    ∷ 175 ∷ 176 ∷ 177 ∷ 178 ∷ 158 ∷ 148 ∷ 150 ∷ 155 ∷ 90 ∷ 91 ∷ 141 ∷ 140 ∷ 164 ∷ 101 ∷ 102 ∷ 103
    ∷ 169 ∷ 107 ∷ 110 ∷ 108 ∷ 109 ∷ 111 ∷ 113 ∷ 114 ∷ 115 ∷ 124 ∷ 118 ∷ 121 ∷ 119 ∷ 120 ∷ 125 ∷ 126
    ∷ 127 ∷ 122 ∷ 123 ∷ 168 ∷ 274 ∷ 275 ∷ 198 ∷ 203 ∷ 202 ∷ 206 ∷ 207 ∷ 211 ∷ 212 ∷ 210 ∷ 200 ∷ 201
    ∷ 204 ∷ 205 ∷ 199 ∷ 208 ∷ 209 ∷ 242 ∷ 243 ∷ 269 ∷ 73 ∷ 72 ∷ 29 ∷ 59 ∷ 23 ∷ 24 ∷ 20 ∷ 21 ∷ 22
    ∷ 26 ∷ 27 ∷ 28 ∷ 74 ∷ 85 ∷ 86 ∷ 87 ∷ 19 ∷ 441 ∷ 167 ∷ 81 ∷ 267 ∷ 278 ∷ 283 ∷ []
