-- ===== src/Huffman/Table/PartA.antt =====
-- Statements of `Huff_InitTree` of src/huffman.c, from line 141 to line 725.
use co_d4x_client_pub.Common.{List, [], ◌∷◌}
use co_d4x_client_pub.Huffman.Table.{
  Step, Step.bloc_to, Step.left_to, Step.loc_to, Step.name, Step.parent_to, Step.right_to,
  Step.tree_to, Step.weigh,
}

abbrev pub steps1 : List Step
steps1 =
    bloc_to 513
    ∷ parent_to 511 512
    ∷ tree_to 512
    ∷ left_to 508 1
    ∷ loc_to 0 1
    ∷ left_to 493 2
    ∷ loc_to 1 2
    ∷ left_to 480 3
    ∷ loc_to 2 3
    ∷ right_to 479 4
    ∷ loc_to 3 4
    ∷ left_to 484 5
    ∷ loc_to 4 5
    ∷ left_to 478 6
    ∷ loc_to 5 6
    ∷ left_to 485 7
    ∷ loc_to 6 7
    ∷ left_to 465 8
    ∷ loc_to 7 8
    ∷ right_to 442 9
    ∷ loc_to 8 9
    ∷ right_to 434 10
    ∷ loc_to 9 10
    ∷ left_to 416 11
    ∷ loc_to 10 11
    ∷ right_to 403 12
    ∷ loc_to 11 12
    ∷ left_to 392 13
    ∷ loc_to 12 13
    ∷ left_to 398 14
    ∷ loc_to 13 14
    ∷ right_to 388 15
    ∷ loc_to 14 15
    ∷ right_to 432 16
    ∷ loc_to 15 16
    ∷ right_to 421 17
    ∷ loc_to 16 17
    ∷ left_to 429 18
    ∷ loc_to 17 18
    ∷ right_to 369 19
    ∷ loc_to 18 19
    ∷ left_to 363 20
    ∷ loc_to 19 20
    ∷ right_to 340 21
    ∷ loc_to 20 21
    ∷ right_to 330 22
    ∷ loc_to 21 22
    ∷ right_to 417 23
    ∷ loc_to 22 23
    ∷ right_to 363 24
    ∷ loc_to 23 24
    ∷ left_to 364 25
    ∷ loc_to 24 25
    ∷ left_to 333 26
    ∷ loc_to 25 26
    ∷ right_to 408 27
    ∷ loc_to 26 27
    ∷ left_to 344 28
    ∷ loc_to 27 28
    ∷ right_to 371 29
    ∷ loc_to 28 29
    ∷ left_to 347 30
    ∷ loc_to 29 30
    ∷ left_to 368 31
    ∷ loc_to 30 31
    ∷ left_to 394 32
    ∷ loc_to 31 32
    ∷ left_to 468 33
    ∷ loc_to 32 33
    ∷ left_to 321 34
    ∷ loc_to 33 34
    ∷ right_to 423 35
    ∷ loc_to 34 35
    ∷ left_to 340 36
    ∷ loc_to 35 36
    ∷ right_to 312 37
    ∷ loc_to 36 37
    ∷ left_to 303 38
    ∷ loc_to 37 38
    ∷ right_to 322 39
    ∷ loc_to 38 39
    ∷ left_to 313 40
    ∷ loc_to 39 40
    ∷ left_to 326 41
    ∷ loc_to 40 41
    ∷ right_to 275 42
    ∷ loc_to 41 42
    ∷ right_to 276 43
    ∷ loc_to 42 43
    ∷ left_to 282 44
    ∷ loc_to 43 44
    ∷ right_to 357 45
    ∷ loc_to 44 45
    ∷ left_to 324 46
    ∷ loc_to 45 46
    ∷ left_to 320 47
    ∷ loc_to 46 47
    ∷ right_to 300 48
    ∷ loc_to 47 48
    ∷ left_to 427 49
    ∷ loc_to 48 49
    ∷ left_to 424 50
    ∷ loc_to 49 50
    ∷ right_to 411 51
    ∷ loc_to 50 51
    ∷ left_to 411 52
    ∷ loc_to 51 52
    ∷ left_to 399 53
    ∷ loc_to 52 53
    ∷ left_to 367 54
    ∷ loc_to 53 54
    ∷ left_to 362 55
    ∷ loc_to 54 55
    ∷ right_to 362 56
    ∷ loc_to 55 56
    ∷ left_to 389 57
    ∷ loc_to 56 57
    ∷ left_to 343 58
    ∷ loc_to 57 58
    ∷ right_to 331 59
    ∷ loc_to 58 59
    ∷ left_to 308 60
    ∷ loc_to 59 60
    ∷ right_to 320 61
    ∷ loc_to 60 61
    ∷ left_to 334 62
    ∷ loc_to 61 62
    ∷ left_to 373 63
    ∷ loc_to 62 63
    ∷ right_to 401 64
    ∷ loc_to 63 64
    ∷ right_to 433 65
    ∷ loc_to 64 65
    ∷ left_to 383 66
    ∷ loc_to 65 66
    ∷ right_to 410 67
    ∷ loc_to 66 67
    ∷ left_to 361 68
    ∷ loc_to 67 68
    ∷ left_to 419 69
    ∷ loc_to 68 69
    ∷ left_to 342 70
    ∷ loc_to 69 70
    ∷ left_to 318 71
    ∷ loc_to 70 71
    ∷ []

abbrev pub steps2 : List Step
steps2 =
    left_to 337 72
    ∷ loc_to 71 72
    ∷ right_to 353 73
    ∷ loc_to 72 73
    ∷ right_to 316 74
    ∷ loc_to 73 74
    ∷ right_to 326 75
    ∷ loc_to 74 75
    ∷ left_to 279 76
    ∷ loc_to 75 76
    ∷ left_to 299 77
    ∷ loc_to 76 77
    ∷ right_to 341 78
    ∷ loc_to 77 78
    ∷ right_to 427 79
    ∷ loc_to 78 79
    ∷ right_to 438 80
    ∷ loc_to 79 80
    ∷ left_to 349 81
    ∷ loc_to 80 81
    ∷ left_to 265 82
    ∷ loc_to 81 82
    ∷ left_to 311 83
    ∷ loc_to 82 83
    ∷ right_to 265 84
    ∷ loc_to 83 84
    ∷ left_to 296 85
    ∷ loc_to 84 85
    ∷ left_to 291 86
    ∷ loc_to 85 86
    ∷ right_to 287 87
    ∷ loc_to 86 87
    ∷ right_to 274 88
    ∷ loc_to 87 88
    ∷ right_to 328 89
    ∷ loc_to 88 89
    ∷ right_to 292 90
    ∷ loc_to 89 90
    ∷ right_to 269 91
    ∷ loc_to 90 91
    ∷ left_to 312 92
    ∷ loc_to 91 92
    ∷ left_to 304 93
    ∷ loc_to 92 93
    ∷ left_to 267 94
    ∷ loc_to 93 94
    ∷ right_to 272 95
    ∷ loc_to 94 95
    ∷ right_to 367 96
    ∷ loc_to 95 96
    ∷ right_to 405 97
    ∷ loc_to 96 97
    ∷ left_to 348 98
    ∷ loc_to 97 98
    ∷ right_to 325 99
    ∷ loc_to 98 99
    ∷ right_to 303 100
    ∷ loc_to 99 100
    ∷ left_to 346 101
    ∷ loc_to 100 101
    ∷ right_to 296 102
    ∷ loc_to 101 102
    ∷ left_to 359 103
    ∷ loc_to 102 103
    ∷ right_to 308 104
    ∷ loc_to 103 104
    ∷ right_to 343 105
    ∷ loc_to 104 105
    ∷ right_to 279 106
    ∷ loc_to 105 106
    ∷ right_to 260 107
    ∷ loc_to 106 107
    ∷ left_to 278 108
    ∷ loc_to 107 108
    ∷ left_to 391 109
    ∷ loc_to 108 109
    ∷ left_to 323 110
    ∷ loc_to 109 110
    ∷ right_to 317 111
    ∷ loc_to 110 111
    ∷ left_to 335 112
    ∷ loc_to 111 112
    ∷ right_to 365 113
    ∷ loc_to 112 113
    ∷ right_to 297 114
    ∷ loc_to 113 114
    ∷ left_to 341 115
    ∷ loc_to 114 115
    ∷ left_to 328 116
    ∷ loc_to 115 116
    ∷ right_to 307 117
    ∷ loc_to 116 117
    ∷ left_to 264 118
    ∷ loc_to 117 118
    ∷ left_to 319 119
    ∷ loc_to 118 119
    ∷ right_to 294 120
    ∷ loc_to 119 120
    ∷ right_to 350 121
    ∷ loc_to 120 121
    ∷ right_to 290 122
    ∷ loc_to 121 122
    ∷ right_to 298 123
    ∷ loc_to 122 123
    ∷ right_to 302 124
    ∷ loc_to 123 124
    ∷ left_to 339 125
    ∷ loc_to 124 125
    ∷ left_to 314 126
    ∷ loc_to 125 126
    ∷ left_to 360 127
    ∷ loc_to 126 127
    ∷ left_to 380 128
    ∷ loc_to 127 128
    ∷ right_to 462 129
    ∷ loc_to 128 129
    ∷ right_to 380 130
    ∷ loc_to 129 130
    ∷ right_to 394 131
    ∷ loc_to 130 131
    ∷ right_to 390 132
    ∷ loc_to 131 132
    ∷ right_to 361 133
    ∷ loc_to 132 133
    ∷ left_to 273 134
    ∷ loc_to 133 134
    ∷ left_to 302 135
    ∷ loc_to 134 135
    ∷ left_to 309 136
    ∷ loc_to 135 136
    ∷ left_to 405 137
    ∷ loc_to 136 137
    ∷ left_to 293 138
    ∷ loc_to 137 138
    ∷ right_to 273 139
    ∷ loc_to 138 139
    ∷ left_to 295 140
    ∷ loc_to 139 140
    ∷ right_to 352 141
    ∷ loc_to 140 141
    ∷ left_to 284 142
    ∷ loc_to 141 142
    ∷ right_to 407 143
    ∷ loc_to 142 143
    ∷ left_to 315 144
    ∷ []

abbrev pub steps3 : List Step
steps3 =
    loc_to 143 144
    ∷ right_to 336 145
    ∷ loc_to 144 145
    ∷ right_to 277 146
    ∷ loc_to 145 146
    ∷ right_to 284 147
    ∷ loc_to 146 147
    ∷ right_to 281 148
    ∷ loc_to 147 148
    ∷ left_to 305 149
    ∷ loc_to 148 149
    ∷ left_to 260 150
    ∷ loc_to 149 150
    ∷ left_to 269 151
    ∷ loc_to 150 151
    ∷ left_to 266 152
    ∷ loc_to 151 152
    ∷ right_to 306 153
    ∷ loc_to 152 153
    ∷ right_to 291 154
    ∷ loc_to 153 154
    ∷ left_to 300 155
    ∷ loc_to 154 155
    ∷ left_to 289 156
    ∷ loc_to 155 156
    ∷ right_to 319 157
    ∷ loc_to 156 157
    ∷ right_to 268 158
    ∷ loc_to 157 158
    ∷ left_to 268 159
    ∷ loc_to 158 159
    ∷ left_to 327 160
    ∷ loc_to 159 160
    ∷ right_to 373 161
    ∷ loc_to 160 161
    ∷ right_to 271 162
    ∷ loc_to 161 162
    ∷ left_to 285 163
    ∷ loc_to 162 163
    ∷ left_to 262 164
    ∷ loc_to 163 164
    ∷ right_to 295 165
    ∷ loc_to 164 165
    ∷ right_to 261 166
    ∷ loc_to 165 166
    ∷ right_to 266 167
    ∷ loc_to 166 167
    ∷ left_to 259 168
    ∷ loc_to 167 168
    ∷ right_to 283 169
    ∷ loc_to 168 169
    ∷ right_to 258 170
    ∷ loc_to 169 170
    ∷ left_to 317 171
    ∷ loc_to 170 171
    ∷ right_to 264 172
    ∷ loc_to 171 172
    ∷ left_to 281 173
    ∷ loc_to 172 173
    ∷ left_to 331 174
    ∷ loc_to 173 174
    ∷ left_to 276 175
    ∷ loc_to 174 175
    ∷ left_to 274 176
    ∷ loc_to 175 176
    ∷ right_to 386 177
    ∷ loc_to 176 177
    ∷ right_to 311 178
    ∷ loc_to 177 178
    ∷ left_to 275 179
    ∷ loc_to 178 179
    ∷ left_to 270 180
    ∷ loc_to 179 180
    ∷ left_to 283 181
    ∷ loc_to 180 181
    ∷ right_to 304 182
    ∷ loc_to 181 182
    ∷ right_to 356 183
    ∷ loc_to 182 183
    ∷ right_to 313 184
    ∷ loc_to 183 184
    ∷ right_to 323 185
    ∷ loc_to 184 185
    ∷ right_to 270 186
    ∷ loc_to 185 186
    ∷ right_to 267 187
    ∷ loc_to 186 187
    ∷ left_to 297 188
    ∷ loc_to 187 188
    ∷ left_to 330 189
    ∷ loc_to 188 189
    ∷ right_to 339 190
    ∷ loc_to 189 190
    ∷ right_to 333 191
    ∷ loc_to 190 191
    ∷ left_to 350 192
    ∷ loc_to 191 192
    ∷ right_to 424 193
    ∷ loc_to 192 193
    ∷ right_to 376 194
    ∷ loc_to 193 194
    ∷ left_to 376 195
    ∷ loc_to 194 195
    ∷ right_to 329 196
    ∷ loc_to 195 196
    ∷ left_to 366 197
    ∷ loc_to 196 197
    ∷ left_to 292 198
    ∷ loc_to 197 198
    ∷ left_to 290 199
    ∷ loc_to 198 199
    ∷ right_to 305 200
    ∷ loc_to 199 200
    ∷ right_to 348 201
    ∷ loc_to 200 201
    ∷ right_to 280 202
    ∷ loc_to 201 202
    ∷ right_to 263 203
    ∷ loc_to 202 203
    ∷ right_to 259 204
    ∷ loc_to 203 204
    ∷ left_to 322 205
    ∷ loc_to 204 205
    ∷ right_to 288 206
    ∷ loc_to 205 206
    ∷ right_to 285 207
    ∷ loc_to 206 207
    ∷ left_to 306 208
    ∷ loc_to 207 208
    ∷ right_to 338 209
    ∷ loc_to 208 209
    ∷ left_to 277 210
    ∷ loc_to 209 210
    ∷ left_to 301 211
    ∷ loc_to 210 211
    ∷ right_to 278 212
    ∷ loc_to 211 212
    ∷ left_to 263 213
    ∷ loc_to 212 213
    ∷ right_to 257 214
    ∷ loc_to 213 214
    ∷ right_to 286 215
    ∷ loc_to 214 215
    ∷ left_to 271 216
    ∷ loc_to 215 216
    ∷ []

abbrev pub steps4 : List Step
steps4 =
    right_to 381 217
    ∷ loc_to 216 217
    ∷ right_to 289 218
    ∷ loc_to 217 218
    ∷ right_to 262 219
    ∷ loc_to 218 219
    ∷ left_to 287 220
    ∷ loc_to 219 220
    ∷ right_to 299 221
    ∷ loc_to 220 221
    ∷ left_to 288 222
    ∷ loc_to 221 222
    ∷ right_to 334 223
    ∷ loc_to 222 223
    ∷ left_to 345 224
    ∷ loc_to 223 224
    ∷ left_to 403 225
    ∷ loc_to 224 225
    ∷ right_to 301 226
    ∷ loc_to 225 226
    ∷ left_to 307 227
    ∷ loc_to 226 227
    ∷ left_to 298 228
    ∷ loc_to 227 228
    ∷ left_to 310 229
    ∷ loc_to 228 229
    ∷ left_to 261 230
    ∷ loc_to 229 230
    ∷ left_to 272 231
    ∷ loc_to 230 231
    ∷ right_to 310 232
    ∷ loc_to 231 232
    ∷ right_to 327 233
    ∷ loc_to 232 233
    ∷ left_to 294 234
    ∷ loc_to 233 234
    ∷ left_to 286 235
    ∷ loc_to 234 235
    ∷ left_to 280 236
    ∷ loc_to 235 236
    ∷ right_to 315 237
    ∷ loc_to 236 237
    ∷ right_to 282 238
    ∷ loc_to 237 238
    ∷ right_to 324 239
    ∷ loc_to 238 239
    ∷ right_to 351 240
    ∷ loc_to 239 240
    ∷ right_to 384 241
    ∷ loc_to 240 241
    ∷ right_to 314 242
    ∷ loc_to 241 242
    ∷ right_to 293 243
    ∷ loc_to 242 243
    ∷ right_to 321 244
    ∷ loc_to 243 244
    ∷ right_to 337 245
    ∷ loc_to 244 245
    ∷ left_to 316 246
    ∷ loc_to 245 246
    ∷ right_to 318 247
    ∷ loc_to 246 247
    ∷ right_to 347 248
    ∷ loc_to 247 248
    ∷ left_to 372 249
    ∷ loc_to 248 249
    ∷ left_to 336 250
    ∷ loc_to 249 250
    ∷ right_to 374 251
    ∷ loc_to 250 251
    ∷ left_to 369 252
    ∷ loc_to 251 252
    ∷ left_to 379 253
    ∷ loc_to 252 253
    ∷ right_to 383 254
    ∷ loc_to 253 254
    ∷ right_to 393 255
    ∷ loc_to 254 255
    ∷ left_to 472 256
    ∷ loc_to 255 256
    ∷ left_to 257 0
    ∷ loc_to 256 0
    ∷ left_to 258 257
    ∷ parent_to 0 257
    ∷ name 0 256
    ∷ left_to 511 508
    ∷ parent_to 1 508
    ∷ weigh 1 274054
    ∷ left_to 503 493
    ∷ parent_to 2 493
    ∷ weigh 2 68777
    ∷ name 2 1
    ∷ right_to 496 480
    ∷ parent_to 3 480
    ∷ weigh 3 40460
    ∷ name 3 2
    ∷ left_to 496 479
    ∷ parent_to 4 479
    ∷ weigh 4 40266
    ∷ name 4 3
    ∷ right_to 498 484
    ∷ parent_to 5 484
    ∷ weigh 5 48059
    ∷ name 5 4
    ∷ right_to 495 478
    ∷ parent_to 6 478
    ∷ weigh 6 39006
    ∷ name 6 5
    ∷ left_to 499 485
    ∷ parent_to 7 485
    ∷ weigh 7 48630
    ∷ name 7 6
    ∷ right_to 488 465
    ∷ parent_to 8 465
    ∷ weigh 8 27692
    ∷ name 8 7
    ∷ right_to 474 442
    ∷ parent_to 9 442
    ∷ weigh 9 17712
    ∷ name 9 8
    ∷ left_to 470 434
    ∷ parent_to 10 434
    ∷ weigh 10 15439
    ∷ name 10 9
    ∷ right_to 459 416
    ∷ parent_to 11 416
    ∷ weigh 11 12386
    ∷ name 11 10
    ∷ left_to 453 403
    ∷ parent_to 12 403
    ∷ weigh 12 10758
    ∷ name 12 11
    ∷ right_to 447 392
    ∷ parent_to 13 392
    ∷ weigh 13 9420
    ∷ name 13 12
    ∷ right_to 450 398
    ∷ parent_to 14 398
    ∷ weigh 14 9979
    ∷ name 14 13
    ∷ right_to 445 388
    ∷ parent_to 15 388
    ∷ weigh 15 9346
    ∷ name 15 14
    ∷ left_to 469 432
    ∷ []
